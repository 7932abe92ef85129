-- ===== src/Exec/Inversion.antt =====
-- What a sequence that returned says of its first action.
use smart_auth_with_kubernat.Prelude.{ℕ, ◌+◌, ◌≡◌, refl, ap, Bool, true, false, Option, none, some}
use smart_auth_with_kubernat.Exec.{
  Exec, Failure, Result, ok, err, pure, lift, or_raise, query, raise_if, now, continue, ◌>>=◌, ◌>>◌,
}
use smart_auth_with_kubernat.Platform.{Platform, World}

module _ {P : Platform} {A B : Type 0} where
  continue-eq-ok :
      (m : Result A × World P) (f : A → Exec P B) (b : B) (w' : World P)
      → continue m f ≡ (ok b, w')
      → (a : A) × (m.0 ≡ ok a) × (f a m.1 ≡ (ok b, w'))
  continue-eq-ok (ok a, w) f b w' h = (a, refl, h)
  continue-eq-ok (err e, w) f b w' h = cc

  pub bind-eq-ok :
      (m : Exec P A) (f : A → Exec P B) (w : World P) {b : B} {w' : World P}
      → (m >>= f) w ≡ (ok b, w')
      → (a : A) × ((m w).0 ≡ ok a) × (f a (m w).1 ≡ (ok b, w'))
  unfolding ◌>>=◌
  bind-eq-ok m f w {b} {w'} h = continue-eq-ok (m w) f b w' h

  pub or_raise-bind-eq-ok :
      (o : Option A) (e : Failure) (f : A → Exec P B) (w : World P) {b : B} {w' : World P}
      → (or_raise o e >>= f) w ≡ (ok b, w')
      → (a : A) × (o ≡ some a) × (f a w ≡ (ok b, w'))
  unfolding ◌>>=◌
  or_raise-bind-eq-ok none e f w h = cc
  or_raise-bind-eq-ok (some a) e f w h = (a, refl, h)

  pub query-bind :
      (g : P.Session → A) (f : A → Exec P B) (w : World P) → (query g >>= f) w ≡ f (g w.session) w
  unfolding ◌>>=◌
  query-bind g f w = refl

  continue-eq-err :
      (m : Result A × World P) (f : A → Exec P B) (e : Failure)
      → m.0 ≡ err e
      → (continue m f).0 ≡ err e
  continue-eq-err (ok a, w) f e h = cc
  continue-eq-err (err e', w) f e h = cc

  pub bind-eq-err :
      (m : Exec P A) (f : A → Exec P B) (w : World P) {e : Failure}
      → (m w).0 ≡ err e
      → ((m >>= f) w).0 ≡ err e
  unfolding ◌>>=◌
  bind-eq-err m f w {e} h = continue-eq-err (m w) f e h

  pub lift-bind :
      (r : Result A) (a : A) (f : A → Exec P B) (w : World P) → r ≡ ok a → (lift r >>= f) w ≡ f a w
  unfolding ◌>>=◌
  lift-bind r a f w h = rw h

module _ {P : Platform} {A B C : Type 0} where
  continue_assoc :
      (m : Result A × World P) (f : A → Exec P B) (g : B → Exec P C)
      → continue (continue m f) g ≡ continue m (λ a. f a >>= g)
  unfolding ◌>>=◌
  continue_assoc (ok a, w) f g = refl
  continue_assoc (err e, w) f g = refl

  pub bind_assoc :
      (m : Exec P A) (f : A → Exec P B) (g : B → Exec P C) (w : World P)
      → ((m >>= f) >>= g) w ≡ (m >>= (λ a. f a >>= g)) w
  unfolding ◌>>=◌
  bind_assoc m f g w = continue_assoc (m w) f g

module _ {P : Platform} {B : Type 0} where
  pub pure-eq-ok : (a : B) (w : World P) {b : B} {w' : World P} → pure a w ≡ (ok b, w') → a ≡ b
  unfolding pure
  pure-eq-ok a w h = cc

  pub pure-eq-world : (a : B) (w : World P) {b : B} {w' : World P} → pure a w ≡ (ok b, w') → w ≡ w'
  unfolding pure
  pure-eq-world a w h = ap (λ (x : Result B × World P). x.1) h

  pub raise_if-bind-eq-ok :
      (c : Bool) (e : Failure) (f : Exec P B) (w : World P) {b : B} {w' : World P}
      → (raise_if c e >> f) w ≡ (ok b, w')
      → (c ≡ false) × (f w ≡ (ok b, w'))
  unfolding ◌>>=◌
  raise_if-bind-eq-ok true e f w h = cc
  raise_if-bind-eq-ok false e f w h = (refl, h)

  pub now-bind :
      (f : ℕ → Exec P B) (w : World P)
      → (now >>= f) w ≡ f (P.clock w.readings) (record w { readings = w.readings + 1 })
  unfolding now ◌>>=◌
  now-bind f w = refl

pub pair_of_first {ℓ κ} : {A : Type ℓ} {B : Type κ} {a : A} (p : A × B) → p.0 ≡ a → p ≡ (a, p.1)
pair_of_first p h = cc
