-- ===== src/Bootstrap/Setup.antt =====
-- The fields of the Bootstrapper that only its configuration sets, and the calls that leave them.
use delegatio.Common.{◌≡◌, refl, ap, ◌∙◌, [], ◌∷◌}
use mathlib.Core.Path.{subst}
use delegatio.Common.Outcome.{Outcome, returns, blocks, panics, Method, outcome_of}
use delegatio.Common.Keeps.{Preorder, Keeps}
use delegatio.Store.{Bytes}
use delegatio.Bootstrap.{Bootstrapper, outside, print_line}

pub record SameSetup {W : Type 0} (b b' : Bootstrapper W) : Type 0 where
  pub client : b'.client ≡ b.client
  pub kubeconfig : b'.kubeconfig ≡ b.kubeconfig

abbrev pub setup : (W : Type 0) → Preorder (Bootstrapper W)
setup W = record {
  Related = λ b b'. SameSetup b b';
  same = λ b. record { client = refl; kubeconfig = refl };
  chain = λ first second. record {
    client = second.client ∙ first.client;
    kubeconfig = second.kubeconfig ∙ first.kubeconfig;
  };
}

module _ {W : Type 0} where
  outside_of :
      {A : Type 0} (o : Outcome W A) (b b' : Bootstrapper W) (a : A)
      → (elim o [
        | returns x w ↦ returns x (record b { world = w })
        | blocks ↦ blocks
        | panics ↦ panics
      ])
        ≡ returns a b'
      → SameSetup b b'
  outside_of (returns x w) b b' a h =
      subst (λ t. SameSetup b t) (outcome_of h).1 (record { client = refl; kubeconfig = refl })
  outside_of blocks b b' a h = cc
  outside_of panics b b' a h = cc

  pub outside-Keeps : {A : Type 0} (call : Method W A) → Keeps (setup W) (outside call)
  outside-Keeps call = record { related = λ b b' a h. outside_of (call b.world) b b' a h }

  pub print_line-Keeps : (line : Bytes) → Keeps (setup W) (print_line line)
  print_line-Keeps [] = record {
    related = λ b b' a h.
        subst (λ t. SameSetup b t) (outcome_of h).1 (record { client = refl; kubeconfig = refl });
  }
  print_line-Keeps (c ∷ line) = record {
    related = λ b b' a h.
        subst (λ t. SameSetup b t) (outcome_of h).1 (record { client = refl; kubeconfig = refl });
  }

  outside_returns_of :
      {A : Type 0} (o : Outcome W A) (b b' : Bootstrapper W) (a : A)
      → (elim o [
        | returns x w ↦ returns x (record b { world = w })
        | blocks ↦ blocks
        | panics ↦ panics
      ])
        ≡ returns a b'
      → (w : W) × (o ≡ returns a w) × (record b { world = w } ≡ b')
  outside_returns_of (returns x w) b b' a h =
      (w, ap (λ y. returns y w) (outcome_of h).0, (outcome_of h).1)
  outside_returns_of blocks b b' a h = cc
  outside_returns_of panics b b' a h = cc

  -- A call on the world that returned has returned there.
  pub outside_returns :
      {A : Type 0} (call : Method W A) (b b' : Bootstrapper W) (a : A)
      → outside call b ≡ returns a b'
      → (w : W) × (call b.world ≡ returns a w) × (record b { world = w } ≡ b')
  outside_returns call b b' a h = outside_returns_of (call b.world) b b' a h

  pub outside-step :
      {A : Type 0} (call : Method W A) (b : Bootstrapper W) {a : A} {w : W}
      → call b.world ≡ returns a w
      → outside call b ≡ returns a (record b { world = w })
  outside-step call b h = rw (h, outside) refl
