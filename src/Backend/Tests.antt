-- ===== src/Backend/Tests.antt =====
-- A control program that is started before the program that it watches.
use stat_log.Base.{◌≡◌, refl, false, codes, ◌++◌}
use stat_log.Memory.{Mem}
use stat_log.Backend.{opened, interprocess_exception, mapped, exited, set_backend}

too_early :
    set_backend interprocess_exception (codes "stats") 100 false
    ≡ exited 1 (
        codes "setParams: Could not open logger shared memory = stats"
        ++ codes ".  Is the generator program running?\n")
unfolding set_backend
too_early = refl

abbrev ones : Mem
ones a = 1

watched : set_backend (opened ones 4096) (codes "stats") 100 false ≡ mapped ones
unfolding set_backend
watched = refl
