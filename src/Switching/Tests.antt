-- ===== src/Switching/Tests.antt =====
-- Two accounts, of which the first one is refused, and then its login fails.
use claude_persist.JsMap
use claude_persist.Rotation.{
  AccountInfo, by_config_dir, next_usable_account, account_key, start_after,
}
use mathlib.Core.Option
use claude_persist.Switching.{Switching, on_limited}
use claude_persist.Switching.Marked.{refuse_all, refuse_all-activated}
use claude_persist.Prelude.{◌≡◌, refl, true, false, none, some, [], ◌∷◌, arith}

abbrev home : AccountInfo
home = record {
  name = "home";
  config_dir = some "/a/home";
  active = false;
  signed_in = true;
  login_expired = false;
}

abbrev first : AccountInfo
first = record {
  name = "default";
  config_dir = none;
  active = true;
  signed_in = true;
  login_expired = false;
}

abbrev started : Switching
started = record {
  accounts = first ∷ home ∷ [];
  current = none;
  rotation = record { limited = []; unusable = []; last_switch_at = 0 };
  enabled = true;
  activated = [];
}

abbrev switched_once : Switching
switched_once = (on_limited by_config_dir 100000 900000 started).0

switches_home : switched_once.activated ≡ some "/a/home" ∷ []
unfolding on_limited JsMap.get start_after account_key next_usable_account by_config_dir
switches_home = refl

refuse_all-activated_example :
    let after = refuse_all by_config_dir ((110000, 950000) ∷ (120000, 950000) ∷ []) switched_once in
    (after.activated ≡ switched_once.activated)
    × (after.current ≡ switched_once.current)
    × (after.rotation.last_switch_at ≡ switched_once.rotation.last_switch_at)
unfolding on_limited JsMap.get start_after account_key next_usable_account by_config_dir
refuse_all-activated_example =
    refuse_all-activated by_config_dir ((110000, 950000) ∷ (120000, 950000) ∷ []) switched_once
      (omega arith, (omega arith, tt))
