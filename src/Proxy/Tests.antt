-- ===== src/Proxy/Tests.antt =====
-- Runs of a LogGenProxy, and the witnesses of its theorems.
use stat_log.Base.{◌≡◌, refl, true, List, [], ◌∷◌, Bytes, codes}
use stat_log.Ring.{TimeStamp}
use stat_log.Proxy.{new_proxy, hex_dump}

abbrev time : TimeStamp
time = record { sec = 1000; usec = 7 }

abbrev inserted : List Bytes
inserted = codes "x = " ∷ codes "42" ∷ []

dumped :
    (hex_dump (new_proxy true (codes "TAG") (codes "INFO")) (0 ∷ 255 ∷ 26 ∷ []) (codes "buf")).text
    ≡ codes "buf\n00 ff 1a "
unfolding hex_dump
dumped = refl
