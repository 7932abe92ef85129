-- ===== src/Exec/Stores.antt =====
-- Rules for coroutines that leave Redis alone.
use smart_auth_with_kubernat.Prelude.{
  ◌≡◌, refl, ◌∙◌, Bool, true, false, Option, none, some, if◌then◌else◌,
}
use smart_auth_with_kubernat.Exec.{
  Exec, Failure, Result, ok, err, pure, lift, or_raise, raise_if, http_call, continue, ◌>>=◌,
}
use smart_auth_with_kubernat.Platform.{Platform, World}
use smart_auth_with_kubernat.Platform.Http.{HttpCall}

pub record KeepsStore (P : Platform) {A : Type 0} (m : Exec P A) : Type 0 where
  pub at : (w : World P) → (m w).1.store ≡ w.store

module _ {P : Platform} {A : Type 0} where
  pub KeepsStore-pure : (a : A) → KeepsStore P (pure {P = P} a)
  unfolding pure
  KeepsStore-pure a = record { at = λ w. refl }

  pub KeepsStore-lift : (r : Result A) → KeepsStore P (lift {P = P} r)
  unfolding lift
  KeepsStore-lift r = record { at = λ w. refl }

  pub KeepsStore-or_raise : (o : Option A) (e : Failure) → KeepsStore P (or_raise {P = P} o e)
  unfolding or_raise
  KeepsStore-or_raise none e = record { at = λ w. refl }
  KeepsStore-or_raise (some a) e = record { at = λ w. refl }

  pub KeepsStore-if :
      (b : Bool) (m n : Exec P A)
      → KeepsStore P m
      → KeepsStore P n
      → KeepsStore P (if b then m else n)
  KeepsStore-if true m n h k = h
  KeepsStore-if false m n h k = k

module _ {P : Platform} where
  pub KeepsStore-raise_if : (b : Bool) (e : Failure) → KeepsStore P (raise_if {P = P} b e)
  unfolding raise_if
  KeepsStore-raise_if b e = record { at = λ w. refl }

  pub KeepsStore-http_call : (call : HttpCall) → KeepsStore P (http_call {P = P} call)
  unfolding http_call
  KeepsStore-http_call call = record { at = λ w. refl }

module _ {P : Platform} {A B : Type 0} where
  store-continue :
      (r : Result A) (w : World P) (f : A → Exec P B)
      → ((a : A) → KeepsStore P (f a))
      → (continue (r, w) f).1.store ≡ w.store
  store-continue (ok a) w f k = (k a).at w
  store-continue (err e) w f k = refl

  pub KeepsStore-bind :
      (m : Exec P A) (f : A → Exec P B)
      → KeepsStore P m
      → ((a : A) → KeepsStore P (f a))
      → KeepsStore P (m >>= f)
  unfolding ◌>>=◌
  KeepsStore-bind m f km kf = record { at = λ w. store-continue (m w).0 (m w).1 f kf ∙ km.at w }

  -- What follows leaves Redis as the first part left it.
  pub store-bind :
      (m : Exec P A) (f : A → Exec P B) (w : World P)
      → ((a : A) → KeepsStore P (f a))
      → ((m >>= f) w).1.store ≡ (m w).1.store
  unfolding ◌>>=◌
  store-bind m f w kf = store-continue (m w).0 (m w).1 f kf

pub ruleset store_rules = (
  KeepsStore-pure, KeepsStore-lift, KeepsStore-or_raise, KeepsStore-raise_if, KeepsStore-http_call,
  KeepsStore-bind,
)
