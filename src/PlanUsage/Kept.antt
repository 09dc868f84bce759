-- ===== src/PlanUsage/Kept.antt =====
-- daemon/src/usage.ts: what one source reports is not lost to the other.
use claude_persist.Limits.{RateLimitWindow, RateLimitStatus}
use claude_persist.PlanUsage.{
  WindowKind, five_hour, seven_day, seven_day_opus, seven_day_sonnet, seven_day_overage_included,
  overage, first_known, to_epoch_ms, RateLimits, with_window, same_kind, index_of, RateLimitInfo,
  WindowReading, UsageSnapshot, UsageResponse, apply_rate_limit_event, apply_usage_response,
  apply_to, event_window, response_window, fold_entry, fold_entries, status_of, or_allowed,
}
use claude_persist.Prelude.{
  ℕ, ◌==◌, inl, inr, String, Bool, true, false, not, ◌||◌, Option, none, some, List, [], ◌∷◌, ◌≡◌,
  refl, sym, ap, ◌∙◌, arith, Bool-cases, if◌then◌else◌,
}
use mathlib.Core.Path.{subst}

-- An update of the snapshot: a pushed event, or the response of the usage call.
pub data Update : Type 0 where
  event : RateLimitInfo → Update
  response : UsageResponse → Update

abbrev pub has_value {ℓ} : {A : Type ℓ} → Option A → Bool
has_value none = false
has_value (some a) = true

abbrev utilization_at : Option RateLimitWindow → Option ℕ
utilization_at none = none
utilization_at (some w) = w.utilization

abbrev reset_at : Option RateLimitWindow → Option ℕ
reset_at none = none
reset_at (some w) = w.resets_at

abbrev implies : Bool → Bool → Bool
implies a b = not a || b

-- What is known of a window before is known of it behind.
pub record IsKept (a b : Option RateLimitWindow) : Type 0 where
  pub utilization : implies (has_value (utilization_at a)) (has_value (utilization_at b)) ≡ true
  pub reset : implies (has_value (reset_at a)) (has_value (reset_at b)) ≡ true

kind_at : ℕ → WindowKind
kind_at n =
    if n == 0
    then five_hour
    else if n == 1
    then seven_day
    else if n == 2
    then seven_day_opus
    else if n == 3
    then seven_day_sonnet
    else if n == 4
    then seven_day_overage_included
    else overage

kind_at-index_of : (kind : WindowKind) → kind_at (index_of kind) ≡ kind
unfolding kind_at
kind_at-index_of five_hour = refl
kind_at-index_of seven_day = refl
kind_at-index_of seven_day_opus = refl
kind_at-index_of seven_day_sonnet = refl
kind_at-index_of seven_day_overage_included = refl
kind_at-index_of overage = refl

eq_of_same_kind : (a b : WindowKind) → same_kind a b ≡ true → a ≡ b
eq_of_same_kind a b h =
    let e : index_of a ≡ index_of b = ground arith in
    sym (kind_at-index_of a) ∙ ap kind_at e ∙ kind_at-index_of b

module _ (parse_date : String → Option ℕ) where
  unfoldable pub update : Update → UsageSnapshot → UsageSnapshot
  update (event info) s = record s { windows = apply_rate_limit_event parse_date s.windows info }
  update (response usage) s = apply_usage_response parse_date s usage

  unfoldable pub update_all : List Update → UsageSnapshot → UsageSnapshot
  update_all [] s = s
  update_all (u ∷ updates) s = update_all updates (update u s)

  abbrev status_for :
      WindowKind → Option WindowKind → Option RateLimitStatus → RateLimitStatus → RateLimitStatus
  status_for kind none pushed before = before
  status_for kind (some k) pushed before = if same_kind k kind then or_allowed pushed else before

  -- The status that the last event of the kind pushed.
  unfoldable pub pushed_status : WindowKind → List Update → RateLimitStatus → RateLimitStatus
  pushed_status kind [] before = before
  pushed_status kind (event info ∷ updates) before =
      pushed_status kind updates (status_for kind info.kind info.status before)
  pushed_status kind (response usage ∷ updates) before = pushed_status kind updates before

  IsKept-refl : (a : Option RateLimitWindow) → IsKept a a
  IsKept-refl none = record { utilization = refl; reset = refl }
  IsKept-refl (some w) = ground arith

  implies_trans : (a b c : Bool) → implies a b ≡ true → implies b c ≡ true → implies a c ≡ true
  implies_trans a b c h k = ground arith

  IsKept-trans : (a b c : Option RateLimitWindow) → IsKept a b → IsKept b c → IsKept a c
  IsKept-trans a b c h k = record {
    utilization =
        implies_trans (has_value (utilization_at a)) (has_value (utilization_at b))
          (has_value (utilization_at c)) h.utilization k.utilization;
    reset =
        implies_trans (has_value (reset_at a)) (has_value (reset_at b)) (has_value (reset_at c))
          h.reset k.reset;
  }

  first_known-known : (a b : Option ℕ) → implies (has_value b) (has_value (first_known a b)) ≡ true
  first_known-known none none = refl
  first_known-known none (some b) = refl
  first_known-known (some a) none = refl
  first_known-known (some a) (some b) = refl

  event_window-IsKept :
      (info : RateLimitInfo) (w : Option RateLimitWindow)
      → IsKept w (some (event_window parse_date info w))
  unfolding event_window
  event_window-IsKept info none = record { utilization = refl; reset = refl }
  event_window-IsKept info (some w) = record {
    utilization = first_known-known info.utilization w.utilization;
    reset = first_known-known (to_epoch_ms parse_date info.resets_at) w.resets_at;
  }

  response_window-IsKept :
      (reading : WindowReading) (w : Option RateLimitWindow)
      → IsKept w (some (response_window parse_date reading w))
  unfolding response_window
  response_window-IsKept reading none = record { utilization = refl; reset = refl }
  response_window-IsKept reading (some w) = record {
    utilization = first_known-known reading.utilization w.utilization;
    reset = first_known-known (to_epoch_ms parse_date reading.resets_at) w.resets_at;
  }

  with_window-IsKept :
      (kind : WindowKind) (w : RateLimitWindow) (windows : RateLimits) (k : WindowKind)
      → IsKept (windows kind) (some w)
      → IsKept (windows k) (with_window kind w windows k)
  unfolding with_window
  with_window-IsKept kind w windows k h = elim (Bool-cases (same_kind kind k)) [
    | inl same ↦ rw same (subst (λ j. IsKept (windows j) (some w)) (eq_of_same_kind kind k same) h)
    | inr other ↦ rw other (IsKept-refl (windows k))
  ]

  with_window-status :
      (kind : WindowKind) (w : RateLimitWindow) (windows : RateLimits) (k : WindowKind)
      → status_of (with_window kind w windows k)
        ≡ (if same_kind kind k then w.status else status_of (windows k))
  unfolding with_window
  with_window-status kind w windows k = elim (Bool-cases (same_kind kind k)) [
    | inl same ↦ rw same
    | inr other ↦ rw other
  ]

  apply_to-IsKept :
      (info : RateLimitInfo) (kind : Option WindowKind) (windows : RateLimits) (k : WindowKind)
      → IsKept (windows k) (apply_to parse_date windows info kind k)
  apply_to-IsKept info none windows k = IsKept-refl (windows k)
  apply_to-IsKept info (some kind) windows k =
      with_window-IsKept kind (event_window parse_date info (windows kind)) windows k
        (event_window-IsKept info (windows kind))

  apply_to-status :
      (info : RateLimitInfo) (kind : Option WindowKind) (windows : RateLimits) (k : WindowKind)
      → status_of (apply_to parse_date windows info kind k)
        ≡ status_for k kind info.status (status_of (windows k))
  unfolding event_window
  apply_to-status info none windows k = refl
  apply_to-status info (some kind) windows k =
      with_window-status kind (event_window parse_date info (windows kind)) windows k

  fold_entry-IsKept :
      (kind : Option WindowKind) (reading : Option WindowReading) (windows : RateLimits)
      (k : WindowKind)
      → IsKept (windows k) (fold_entry parse_date kind reading windows k)
  fold_entry-IsKept none reading windows k = IsKept-refl (windows k)
  fold_entry-IsKept (some kind) none windows k = IsKept-refl (windows k)
  fold_entry-IsKept (some kind) (some reading) windows k =
      with_window-IsKept kind (response_window parse_date reading (windows kind)) windows k
        (response_window-IsKept reading (windows kind))

  -- A reading keeps the status of its window, and so of all.
  fold_entry-status :
      (kind : Option WindowKind) (reading : Option WindowReading) (windows : RateLimits)
      (k : WindowKind)
      → status_of (fold_entry parse_date kind reading windows k) ≡ status_of (windows k)
  unfolding response_window
  fold_entry-status none reading windows k = refl
  fold_entry-status (some kind) none windows k = refl
  fold_entry-status (some kind) (some reading) windows k =
      with_window-status kind (response_window parse_date reading (windows kind)) windows k
      ∙ elim (Bool-cases (same_kind kind k)) [
        | inl same ↦ rw same (ap (λ j. status_of (windows j)) (eq_of_same_kind kind k same))
        | inr other ↦ rw other
      ]

  fold_entries-IsKept :
      (entries : List (Option WindowKind × Option WindowReading)) (windows : RateLimits)
      (k : WindowKind)
      → IsKept (windows k) (fold_entries parse_date entries windows k)
        × (status_of (fold_entries parse_date entries windows k) ≡ status_of (windows k))
  unfolding fold_entries
  fold_entries-IsKept [] windows k = (IsKept-refl (windows k), refl)
  fold_entries-IsKept ((kind, reading) ∷ entries) windows k =
      let next = fold_entry parse_date kind reading windows in
      let (kept, status) = fold_entries-IsKept entries next k in
      (
        IsKept-trans (windows k) (next k) (fold_entries parse_date entries next k)
            (fold_entry-IsKept kind reading windows k) kept,
        status ∙ fold_entry-status kind reading windows k,
      )

  update-IsKept :
      (u : Update) (s : UsageSnapshot) (k : WindowKind)
      → IsKept (s.windows k) ((update u s).windows k)
  unfolding update apply_rate_limit_event apply_usage_response
  update-IsKept (event info) s k = apply_to-IsKept info info.kind s.windows k
  update-IsKept (response usage) s k = (fold_entries-IsKept usage.rate_limits s.windows k).0

  event-status :
      (info : RateLimitInfo) (s : UsageSnapshot) (k : WindowKind)
      → status_of ((update (event info) s).windows k)
        ≡ status_for k info.kind info.status (status_of (s.windows k))
  unfolding update apply_rate_limit_event
  event-status info s k = apply_to-status info info.kind s.windows k

  response-status :
      (usage : UsageResponse) (s : UsageSnapshot) (k : WindowKind)
      → status_of ((update (response usage) s).windows k) ≡ status_of (s.windows k)
  unfolding update apply_usage_response
  response-status usage s k = (fold_entries-IsKept usage.rate_limits s.windows k).1

  -- Whatever the two sources report, in any order: a utilization or a reset that is known of a
  -- window stays known, and the status of a window is the one that the last event of its kind
  -- pushed, or else the one before.
  pub update_all-IsKept :
      (updates : List Update) (s : UsageSnapshot) (k : WindowKind)
      → IsKept (s.windows k) ((update_all updates s).windows k)
        × (status_of ((update_all updates s).windows k)
            ≡ pushed_status k updates (status_of (s.windows k)))
  unfolding update_all pushed_status
  update_all-IsKept [] s k = (IsKept-refl (s.windows k), refl)
  update_all-IsKept (event info ∷ updates) s k =
      let next = update (event info) s in
      let (kept, status) = update_all-IsKept updates next k in
      (
        IsKept-trans (s.windows k) (next.windows k) ((update_all updates next).windows k)
            (update-IsKept (event info) s k) kept,
        status ∙ ap (pushed_status k updates) (event-status info s k),
      )
  update_all-IsKept (response usage ∷ updates) s k =
      let next = update (response usage) s in
      let (kept, status) = update_all-IsKept updates next k in
      (
        IsKept-trans (s.windows k) (next.windows k) ((update_all updates next).windows k)
            (update-IsKept (response usage) s k) kept,
        status ∙ ap (pushed_status k updates) (response-status usage s k),
      )
