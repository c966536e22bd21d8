-- ===== src/Examples/Dedup.antt =====
-- A radio that sends a message, again after a second, and once more after a minute.
use meshtk.Prelude.{◌≡◌, refl, [], ◌∷◌, true, false, arith}
use meshtk.Dedup.{Requests, dedup_all, dedup_request, is_recent, find_time, request_dedup_window}
use meshtk.Node.{expire, delete_key}
use meshtk.Dedup.Laws.{Ordered, unforgetting, dedup_all-unforgetting}

abbrev resent : Requests
resent = ("7:hello", 0) ∷ ("7:hello", 1000000000) ∷ ("7:hello", 60000000000) ∷ []

ordered : Ordered 0 resent
unfolding Ordered
ordered = ((omega arith), ((omega arith), ((omega arith), tt)))

resent_answers : dedup_all request_dedup_window [] resent ≡ false ∷ true ∷ false ∷ []
unfolding dedup_all dedup_request is_recent find_time expire delete_key
resent_answers = refl

dedup_all-unforgetting_example :
    dedup_all request_dedup_window [] resent ≡ unforgetting request_dedup_window [] resent
dedup_all-unforgetting_example = dedup_all-unforgetting request_dedup_window resent ordered
