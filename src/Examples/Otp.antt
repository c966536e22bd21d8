-- ===== src/Examples/Otp.antt =====
-- A queue of two codes, one of them past its tenth attempt, and a welcome to a radio that is silent.
use meshtk.Prelude.{◌≡◌, refl, [], ◌∷◌, false, none, some, str_eq, if◌then◌else◌}
use meshtk.Otp.{Item, WelcomeItem, Deps, process_otp_queue}
use meshtk.Otp.Laws.{settled, next_item, next_welcome, process_otp_queue-settled}
use meshtk.Otp.Queue.{Queue, act_all}

abbrev fresh_item : Item
fresh_item = record {
  node_id = "!00000001";
  node_num = 1;
  code = "4711";
  public_key = "0x01";
  user_id = "u1";
  attempts = 3;
  created_at = 1000;
}

abbrev spent_item : Item
spent_item = record fresh_item { node_id = "!00000002"; node_num = 2; attempts = 10 }

abbrev greeting : WelcomeItem
greeting = record {
  node_id = "!00000001";
  node_num = 1;
  message = "hello";
  user_id = "u1";
  attempts = 0;
  created_at = 1000;
}

-- The radio's key is known, nothing gets out, and nobody is heard.
abbrev silent : Deps
silent = record {
  now_ms = λ id. 2000;
  sent_ms = λ id. 2001;
  resolve_pub_key_hex = λ it. some (it.public_key);
  send_code = λ n k c. false;
  send_welcome = λ w k. false;
  node_alive_now = λ n. false;
}

abbrev queue : Queue
queue = record {
  items = λ id.
      if str_eq id "!00000001"
      then some fresh_item
      else if str_eq id "!00000002"
      then some spent_item
      else none;
  welcomes = λ id. if str_eq id "!00000001" then some greeting else none;
}

process_otp_queue-settled_example :
    let q' =
      act_all
        (process_otp_queue silent (some (fresh_item ∷ spent_item ∷ [], greeting ∷ []))).0
        queue in
    (q'.items "!00000001" ≡ settled (next_item silent) (queue.items "!00000001"))
    × (q'.welcomes "!00000001" ≡ settled (next_welcome silent) (queue.welcomes "!00000001"))
process_otp_queue-settled_example =
    process_otp_queue-settled silent queue (fresh_item ∷ spent_item ∷ []) (greeting ∷ [])
      (record {
        items_once = (refl, (refl, tt));
        welcomes_once = (refl, tt);
        items_held = λ id. refl;
        welcomes_held = λ id. refl;
      })
      "!00000001"
