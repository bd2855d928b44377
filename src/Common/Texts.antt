-- ===== src/Common/Texts.antt =====
-- The functions of Go's package strings that the program calls, on native texts.
use Prim.Native.String.{String, len, slice}
use Prim.Native.String
use mathlib.Core.Path.{◌≡◌, sym, ap, ◌∙◌, subst}
use mathlib.Core.Bool.{Bool, true, false}
use mathlib.Core.Logic.{◌≢◌}
use text.Mathlib.Text.{starts_with, ◌==◌}
use text.Mathlib.TextEquality.{starts_with_iff, eq_iff}
use text.Mathlib.TextLemmas.{append_cancel_left, append_assoc, nil-append}
use text.Mathlib.TextPositions.{starts_with-append, slice-append_right, len-append}
use delegatio.Common.Tests.{if◌then◌else◌, Bool-eq}

-- `+` of two strings.
infixr 65 ◌<>◌
abbrev pub ◌<>◌ : String → String → String
s <> t = String.◌++◌ s t

-- strings.HasPrefix
unfoldable pub has_prefix : String → String → Bool
has_prefix s p = starts_with s p

-- strings.TrimPrefix
unfoldable pub trim_prefix : String → String → String
unfolding has_prefix
trim_prefix s p = if has_prefix s p then slice s (len p) (len s) else s

pub has_prefix-append : (p s : String) → has_prefix (p <> s) p ≡ true
unfolding has_prefix
has_prefix-append p s = starts_with-append p s

pub trim_prefix-append : (p s : String) → trim_prefix (p <> s) p ≡ s
unfolding trim_prefix
trim_prefix-append p s = rw (starts_with-append p s, len-append p s) (slice-append_right p s)

pub has_prefix-split : (s p : String) → has_prefix s p ≡ true → (t : String) × (p <> t ≡ s)
unfolding has_prefix
has_prefix-split s p h = (starts_with_iff s p).0 h

pub append_inj_left : (p s t : String) → p <> s ≡ p <> t → s ≡ t
append_inj_left p s t h = append_cancel_left p s t h

pub ==-append : (p s t : String) → ((p <> s) == (p <> t)) ≡ (s == t)
==-append p s t =
    Bool-eq _ _ (λ h. (eq_iff s t).1 (append_inj_left p s t ((eq_iff (p <> s) (p <> t)).0 h)))
      (λ h. (eq_iff (p <> s) (p <> t)).1 (ap (λ u. p <> u) ((eq_iff s t).0 h)))

pub has_prefix-append_append : (p s q : String) → has_prefix (p <> s) (p <> q) ≡ has_prefix s q
has_prefix-append_append p s q =
    Bool-eq _ _
      (λ h.
        let (u, e) = has_prefix-split (p <> s) (p <> q) h in
        rw (← append_inj_left p (q <> u) s (sym (append_assoc p q u) ∙ e)) (has_prefix-append q u))
      (λ h.
        let (u, e) = has_prefix-split s q h in
        rw (← e) (rw (← append_assoc p q u) (has_prefix-append (p <> q) u)))

-- A text that begins with `p <> q` begins with `p`.
pub has_prefix-left : (s p q : String) → has_prefix s (p <> q) ≡ true → has_prefix s p ≡ true
has_prefix-left s p q h =
    let (u, e) = has_prefix-split s (p <> q) h in
    rw (← e) (rw (append_assoc p q u) (has_prefix-append p (q <> u)))

pub has_prefix-empty : (s : String) → has_prefix s "" ≡ true
has_prefix-empty s = subst (λ t. has_prefix t "" ≡ true) (nil-append s) (has_prefix-append "" s)

pub append_differ : (p s t : String) → (s == t) ≡ false → (p <> s) ≢ (p <> t)
append_differ p s t differ same = let equal = (eq_iff s t).1 (append_inj_left p s t same) in cc

pub append_assoc_text : (p s t : String) → (p <> s) <> t ≡ p <> (s <> t)
append_assoc_text p s t = append_assoc p s t
