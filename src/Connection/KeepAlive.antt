-- ===== src/Connection/KeepAlive.antt =====
-- When keepAlive gives a connection up, and what handleGlobalRequests answers.
use delegatio.Common.{
  ℕ, zero, suc, ◌+◌, ◌≡◌, refl, sym, ap, ◌∙◌, Bool, true, false, List, [], ◌∷◌, Option, none, some,
  arith, inl, inr, if◌then◌else◌, map, Bool-cases,
}
use delegatio.Common.Outcome.{ok}
use delegatio.Connection.{
  tick, cancelled, keep_alive_loop, keep_alive, ConnHandler, KeepAliveEnd, Builder, build,
}

-- The failures at the start of a list.
abbrev pub starts_with_failures : ℕ → List Bool → Bool
starts_with_failures zero ticks = true
starts_with_failures (suc n) [] = false
starts_with_failures (suc n) (failed ∷ ticks) =
    let rest = starts_with_failures n ticks in if failed then rest else false

-- `n` failures in a row, anywhere.
abbrev pub has_failures : ℕ → List Bool → Bool
has_failures n [] = starts_with_failures n []
has_failures n (failed ∷ ticks) =
    let rest = has_failures n ticks in
    if starts_with_failures n (failed ∷ ticks) then true else rest

starts_with_failures_less :
    (n : ℕ) (ticks : List Bool)
    → starts_with_failures (suc n) ticks ≡ true
    → starts_with_failures n ticks ≡ true
starts_with_failures_less zero ticks h = refl
starts_with_failures_less (suc n) [] h = cc
starts_with_failures_less (suc n) (true ∷ ticks) h = starts_with_failures_less n ticks h
starts_with_failures_less (suc n) (false ∷ ticks) h = cc

starts_with_failures-add :
    (r n : ℕ) (ticks : List Bool)
    → starts_with_failures (r + n) ticks ≡ true
    → starts_with_failures n ticks ≡ true
starts_with_failures-add zero n ticks h =
    let e : n ≡ 0 + n = omega arith in ap (λ m. starts_with_failures m ticks) e ∙ h
starts_with_failures-add (suc r) n ticks h =
    let e : suc (r + n) ≡ suc r + n = omega arith in
    starts_with_failures-add r n ticks
      (starts_with_failures_less (r + n) ticks (ap (λ m. starts_with_failures m ticks) e ∙ h))

has_failures-start :
    (n : ℕ) (ticks : List Bool) → starts_with_failures n ticks ≡ true → has_failures n ticks ≡ true
has_failures-start n [] h = h
has_failures-start n (failed ∷ ticks) h = rw h refl

module _ (max : ℕ) where
  abbrev end_after : ℕ → List Bool → Option KeepAliveEnd
  end_after k ticks =
      if starts_with_failures (suc k) ticks
      then some cancelled
      else if has_failures (suc max) ticks
      then some cancelled
      else none

  keep_alive_loop_lem :
      (r k : ℕ) (ticks : List Bool)
      → r + k ≡ max
      → keep_alive_loop max r (map tick ticks) ≡ end_after k ticks
  unfolding keep_alive_loop
  keep_alive_loop_lem r k [] e = refl
  keep_alive_loop_lem r zero (true ∷ ticks) e = ground arith
  keep_alive_loop_lem r (suc k) (true ∷ ticks) e =
      let rest = keep_alive_loop_lem (r + 1) k ticks (omega (arith, e)) in
      elim (Bool-cases (starts_with_failures (suc k) ticks)) [
        | inl h ↦ ground (arith, rest)
        | inr h ↦ elim (Bool-cases (starts_with_failures max ticks)) [
          | inl all ↦
              let split : r + suc k ≡ max = e in
              let impossible : true ≡ false =
                sym (
                  starts_with_failures-add r (suc k) ticks
                    (ap (λ m. starts_with_failures m ticks) split ∙ all))
                ∙ h in
              cc impossible
          | inr few ↦ ground (arith, rest)
        ]
      ]
  keep_alive_loop_lem r k (false ∷ ticks) e =
      let rest = keep_alive_loop_lem 0 max ticks (omega arith) in
      elim (Bool-cases (starts_with_failures (suc max) ticks)) [
        | inl h ↦ ground (arith, rest, has_failures-start (suc max) ticks h)
        | inr h ↦ ground (arith, rest)
      ]

build_retries : (s : Builder) (c : ConnHandler) → build s ≡ ok c → c.max_keep_alive_retries ≡ 3
unfolding build
build_retries s c h = ground arith

-- During ticks alone, the keep-alive loop of a handler that Build made cancels the connection
-- exactly when four requests in a row fail; otherwise it goes on waiting.
pub keep_alive_lem :
    (s : Builder) (c : ConnHandler) (ticks : List Bool)
    → build s ≡ ok c
    → keep_alive c (map tick ticks) ≡ (if has_failures 4 ticks then some cancelled else none)
unfolding keep_alive
keep_alive_lem s c ticks h =
    rw (build_retries s c h)
      (keep_alive_loop_lem 3 0 3 ticks refl ∙ ground (arith, has_failures-start 4 ticks))
