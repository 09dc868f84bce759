-- ===== src/TokenMeter/Window.antt =====
-- daemon/src/tokenFlow.ts: what is pruned on the way does not change what a snapshot says.
use claude_persist.TokenMeter.{
  Report, CallUsage, CountedCall, TokenMeter, new_meter, is_past, drop_past, prune, counted,
  mark_seen, record_usage, flow_of, snapshot, recorded,
}
use claude_persist.Prelude.{
  ℕ, ◌≤◌, Bool, false, not, Option, none, some, List, [], ◌∷◌, ◌++◌, keep_if, ◌≡◌, refl, sym, ap,
  ◌∙◌, arith, Bool-cases, Option-cases, inl, inr, All, All-append,
}
use mathlib.Core.List.{append_assoc, append-nil}

-- The calls that the reports add, whether they are still kept or not.
abbrev add_counted : Option CountedCall → List CountedCall → List CountedCall
add_counted none calls = calls
add_counted (some c) calls = c ∷ calls

unfoldable pub counted_calls : List Report → TokenMeter → List CountedCall
counted_calls [] m = []
counted_calls (r ∷ reports) m =
    add_counted (counted r r.usage m) (counted_calls reports (record_usage r m))

unfoldable pub run : List Report → TokenMeter → TokenMeter
run [] m = m
run (r ∷ reports) m = run reports (record_usage r m)

-- Not yet past.
unfoldable pub is_young : ℕ → CountedCall → Bool
is_young at c = not (is_past at c.at)

-- The instants of the reports do not go back, from `start` to `end`.
abbrev pub Advances : ℕ → List Report → ℕ → Type 0
Advances start [] end = start ≤ end
Advances start (r ∷ reports) end = (start ≤ r.at) × Advances r.at reports end

-- The calls stand in the order of their instants, up to `end`.
abbrev IsTimed : List CountedCall → ℕ → Type 0
IsTimed [] end = Unit
IsTimed (c ∷ calls) end = All (λ d. c.at ≤ d.at) calls × (c.at ≤ end) × IsTimed calls end

-- What was dropped by an earlier instant is past later.
keep_young-drop :
    (at later : ℕ) (calls : List CountedCall)
    → at ≤ later
    → keep_if (is_young later) (drop_past at calls) ≡ keep_if (is_young later) calls
unfolding drop_past is_young is_past
keep_young-drop at later [] h = refl
keep_young-drop at later (c ∷ calls) h = ground (arith, keep_young-drop at later calls)

all_young :
    (at : ℕ) (c : CountedCall) (calls : List CountedCall)
    → is_past at c.at ≡ false
    → All (λ d. c.at ≤ d.at) calls
    → keep_if (is_young at) calls ≡ calls
unfolding is_young is_past
all_young at c [] h k = refl
all_young at c (d ∷ calls) h k = ground (arith, all_young at c calls)

-- In order of time, dropping the front drops all that is past.
drop_past-timed :
    (at end : ℕ) (calls : List CountedCall)
    → IsTimed calls end
    → drop_past at calls ≡ keep_if (is_young at) calls
unfolding drop_past is_young
drop_past-timed at end [] h = refl
drop_past-timed at end (c ∷ calls) h = elim (Bool-cases (is_past at c.at)) [
  | inl old ↦ rw old (drop_past-timed at end calls h.2)
  | inr new ↦ rw (new, all_young at c calls new h.0)
]

drop_past-IsTimed :
    (at end : ℕ) (calls : List CountedCall) → IsTimed calls end → IsTimed (drop_past at calls) end
unfolding drop_past
drop_past-IsTimed at end [] h = tt
drop_past-IsTimed at end (c ∷ calls) h = ground (arith, drop_past-IsTimed at end calls)

push-IsTimed :
    (end : ℕ) (c : CountedCall) (calls : List CountedCall)
    → end ≤ c.at
    → IsTimed calls end
    → IsTimed (calls ++ c ∷ []) c.at
push-IsTimed end c [] h k = (tt, omega arith, tt)
push-IsTimed end c (d ∷ calls) h k = (
  (All-append (λ e. d.at ≤ e.at) calls (c ∷ [])).1 (k.0, (omega arith, tt)),
  omega arith,
  push-IsTimed end c calls h k.2,
)

IsTimed-later :
    (end later : ℕ) (calls : List CountedCall)
    → end ≤ later
    → IsTimed calls end
    → IsTimed calls later
IsTimed-later end later [] h k = tt
IsTimed-later end later (c ∷ calls) h k = (k.0, omega arith, IsTimed-later end later calls h k.2)

keep-append :
    (p : CountedCall → Bool) (a b : List CountedCall)
    → keep_if p (a ++ b) ≡ keep_if p a ++ keep_if p b
keep-append p [] b = refl
keep-append p (c ∷ a) b = ground (arith, keep-append p a b)

counted-at :
    (r : Report) (u : Option CallUsage) (m : TokenMeter) (c : CountedCall)
    → counted r u m ≡ some c
    → c.at ≡ r.at
unfolding counted
counted-at r none m c h = ground arith
counted-at r (some u) m c h = ground arith

-- A report of which nothing is counted leaves the calls.
recorded-none :
    (r : Report) (u : Option CallUsage) (m : TokenMeter)
    → counted r u m ≡ none
    → (recorded r u m).calls ≡ m.calls
unfolding mark_seen
recorded-none r none m h = refl
recorded-none r (some u) m h = rw h (ground arith)

recorded-some :
    (r : Report) (u : Option CallUsage) (m : TokenMeter) (c : CountedCall)
    → counted r u m ≡ some c
    → (recorded r u m).calls ≡ drop_past r.at (m.calls ++ c ∷ [])
unfolding mark_seen prune
recorded-some r none m c h = unfold counted in ground arith
recorded-some r (some u) m c h = rw h (ground arith)

record_usage-IsTimed :
    (r : Report) (m : TokenMeter) (end : ℕ)
    → IsTimed m.calls end
    → end ≤ r.at
    → IsTimed (record_usage r m).calls r.at
unfolding record_usage
record_usage-IsTimed r m end h k = elim (Option-cases (counted r r.usage m)) [
  | inl e ↦ rw (recorded-none r r.usage m e) (IsTimed-later end r.at m.calls k h)
  | inr (c, e) ↦
      let all = m.calls ++ c ∷ [] in
      let same = counted-at r r.usage m c e in
      rw (recorded-some r r.usage m c e) (
        drop_past-IsTimed r.at r.at all
          (IsTimed-later c.at r.at all (omega arith) (push-IsTimed end c m.calls (omega arith) h)))
]

record_usage-young :
    (r : Report) (m : TokenMeter) (later : ℕ)
    → r.at ≤ later
    → keep_if (is_young later) (record_usage r m).calls
      ≡ keep_if (is_young later) (m.calls ++ add_counted (counted r r.usage m) [])
unfolding record_usage
record_usage-young r m later h = elim (Option-cases (counted r r.usage m)) [
  | inl e ↦ rw (e, recorded-none r r.usage m e, append-nil)
  | inr (c, e) ↦
      rw (recorded-some r r.usage m c e, e) (keep_young-drop r.at later (m.calls ++ c ∷ []) h)
]

Advances-le :
    (start : ℕ) (reports : List Report) (end : ℕ) → Advances start reports end → start ≤ end
Advances-le start [] end h = h
Advances-le start (r ∷ reports) end h = omega (arith, Advances-le r.at reports end h.1)

add_counted-append :
    (o : Option CountedCall) (calls : List CountedCall)
    → add_counted o [] ++ calls ≡ add_counted o calls
add_counted-append none calls = refl
add_counted-append (some c) calls = refl

run-young :
    (reports : List Report) (m : TokenMeter) (start end : ℕ)
    → Advances start reports end
    → IsTimed m.calls start
    → (keep_if (is_young end) (run reports m).calls
        ≡ keep_if (is_young end) (m.calls ++ counted_calls reports m))
      × IsTimed (run reports m).calls end
unfolding run counted_calls
run-young [] m start end h k = (rw append-nil, IsTimed-later start end m.calls h k)
run-young (r ∷ reports) m start end h k =
    let next = record_usage r m in
    let (rest, timed) =
      run-young reports next r.at end h.1 (record_usage-IsTimed r m start k h.0) in
    let one = add_counted (counted r r.usage m) [] in
    let later = counted_calls reports next in
    let young = keep_if (is_young end) in
    (
      rest
          ∙ keep-append (is_young end) next.calls later
          ∙ ap (λ l. l ++ young later)
              (record_usage-young r m end (Advances-le r.at reports end h.1))
          ∙ sym (keep-append (is_young end) (m.calls ++ one) later)
          ∙ ap young (
              append_assoc m.calls one later
              ∙ ap (λ l. m.calls ++ l) (add_counted-append (counted r r.usage m) later)),
      timed,
    )

-- Reports whose instants do not go back, up to the snapshot: it shows what all the calls that they
-- added and that are less than an hour old show, as if nothing had been pruned on the way.
pub snapshot-run :
    (reports : List Report) (end : ℕ)
    → Advances 0 reports end
    → (snapshot end (run reports new_meter)).0
      ≡ flow_of end (keep_if (is_young end) (counted_calls reports new_meter))
unfolding snapshot prune
snapshot-run reports end h =
    let (young, timed) = run-young reports new_meter 0 end h tt in
    ap (flow_of end) (drop_past-timed end end (run reports new_meter).calls timed ∙ young)
