-- ===== src/Udsmsg/Proc/Examples.antt =====
-- The theorem on stat lines at a concrete line.
use harness_transport.Go.Fields.{spaced}
use harness_transport.Go.Space.{is_space}
use harness_transport.Prelude.{◌≡◌, refl, Bytes, List, [], ◌∷◌, ◌++◌, some, codes, is_empty}
use harness_transport.Udsmsg.Proc.Stat.{start_time-fields}
use harness_transport.Udsmsg.Proc.{start_time}

-- The state, and the fields behind it up to the start time.
abbrev stat_fields : List Bytes
stat_fields =
    codes "S"
    ∷ codes "1"
    ∷ codes "2"
    ∷ codes "3"
    ∷ codes "4"
    ∷ codes "5"
    ∷ codes "6"
    ∷ codes "7"
    ∷ codes "8"
    ∷ codes "9"
    ∷ codes "10"
    ∷ codes "11"
    ∷ codes "12"
    ∷ codes "13"
    ∷ codes "14"
    ∷ codes "15"
    ∷ codes "16"
    ∷ codes "17"
    ∷ codes "18"
    ∷ codes "4711"
    ∷ codes "20"
    ∷ []

start_time-fields_example :
    start_time (codes "7 (a) b (c" ++ b')' ∷ spaced stat_fields) ≡ some (codes "4711")
unfolding is_space is_empty
start_time-fields_example = start_time-fields (codes "7 (a) b (c") stat_fields (
  ((refl, refl), refl),
  (
    ((refl, refl), refl),
    (
      ((refl, refl), refl),
      (
        ((refl, refl), refl),
        (
          ((refl, refl), refl),
          (
            ((refl, refl), refl),
            (
              ((refl, refl), refl),
              (
                ((refl, refl), refl),
                (
                  ((refl, refl), refl),
                  (
                    ((refl, refl), refl),
                    (
                      ((refl, refl), refl),
                      (
                        ((refl, refl), refl),
                        (
                          ((refl, refl), refl),
                          (
                            ((refl, refl), refl),
                            (
                              ((refl, refl), refl),
                              (
                                ((refl, refl), refl),
                                (
                                  ((refl, refl), refl),
                                  (
                                    ((refl, refl), refl),
                                    (
                                      ((refl, refl), refl),
                                      (((refl, refl), refl), (((refl, refl), refl), tt)),
                                    ),
                                  ),
                                ),
                              ),
                            ),
                          ),
                        ),
                      ),
                    ),
                  ),
                ),
              ),
            ),
          ),
        ),
      ),
    ),
  ),
)
