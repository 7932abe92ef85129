-- ===== src/Exec/Ends.antt =====
-- Rules for what a coroutine leaves of the session: `pre` before, `post` where it returns. Where it
-- raises, the session is settled.
use smart_auth_with_kubernat.Prelude.{
  refl, ◌≡◌, ℕ, Bool, true, false, Option, none, some, inl, inr, Bool-cases, if◌then◌else◌,
}
use smart_auth_with_kubernat.Exec.{
  Exec, Failure, Result, ok, err, pure, raise, lift, or_raise, query, skip, raise_if, modify, now,
  draw, commit, flush, http_call, redis_command, answered, continue, ◌>>=◌,
}
use smart_auth_with_kubernat.Platform.{Platform, IsDocumented, World}
use smart_auth_with_kubernat.Platform.Database.{Rows}
use smart_auth_with_kubernat.Platform.Http.{HttpCall}
use smart_auth_with_kubernat.Platform.Libraries.{reply, refused, reply_lost}
use smart_auth_with_kubernat.Settled.{
  IsPending, IsSettled, commit-IsSettled, rollback-IsSettled, flush-IsPending,
}

abbrev Left :
    (P : Platform) (before : Rows) {A : Type 0}
    → (P.Session → Type 0)
    → Result A
    → P.Session
    → Type 0
Left P before post (ok a) s = post s
Left P before post (err e) s = IsSettled P before s

pub record Ends (P : Platform) (before : Rows) {A : Type 0} (pre post : P.Session → Type 0)
    (m : Exec P A) : Type 0 where
  pub at : (w : World P) → pre w.session → Left P before post (m w).0 (m w).1.session

module _ {P : Platform} {before : Rows} {A : Type 0} {pre : P.Session → Type 0} where
  pub Ends-pure : (a : A) → Ends P before pre pre (pure {P = P} a)
  unfolding pure
  Ends-pure a = record { at = λ w h. h }

  pub Ends-query : (f : P.Session → A) → Ends P before pre pre (query {P = P} f)
  unfolding query
  Ends-query f = record { at = λ w h. h }

module _ {P : Platform} {before : Rows} {A : Type 0} {post : P.Session → Type 0} where
  pub Ends-raise : (e : Failure) → Ends P before (IsSettled P before) post (raise {P = P} {A = A} e)
  unfolding raise
  Ends-raise e = record { at = λ w h. h }

module _ {P : Platform} {before : Rows} {A : Type 0} where
  pub Ends-lift :
      (r : Result A) → Ends P before (IsSettled P before) (IsSettled P before) (lift {P = P} r)
  unfolding lift
  Ends-lift (ok a) = record { at = λ w h. h }
  Ends-lift (err e) = record { at = λ w h. h }

  pub Ends-or_raise :
      (o : Option A) (e : Failure)
      → Ends P before (IsSettled P before) (IsSettled P before) (or_raise {P = P} o e)
  unfolding or_raise
  Ends-or_raise none e = record { at = λ w h. h }
  Ends-or_raise (some a) e = record { at = λ w h. h }

module _ {P : Platform} {before : Rows} where
  pub Ends-raise_if :
      (b : Bool) (e : Failure)
      → Ends P before (IsSettled P before) (IsSettled P before) (raise_if {P = P} b e)
  unfolding raise_if
  Ends-raise_if true e = record { at = λ w h. h }
  Ends-raise_if false e = record { at = λ w h. h }

module _ {P : Platform} {before : Rows} {pre : P.Session → Type 0} where
  pub Ends-skip : Ends P before pre pre (skip {P = P})
  unfolding skip
  Ends-skip = record { at = λ w h. h }

  pub Ends-now : Ends P before pre pre (now {P = P})
  unfolding now
  Ends-now = record { at = λ w h. h }

  pub Ends-draw : Ends P before pre pre (draw {P = P})
  unfolding draw
  Ends-draw = record { at = λ w h. h }

module _ {P : Platform} {before : Rows} {A : Type 0} {pre post : P.Session → Type 0} where
  pub Ends-if :
      (b : Bool) (m n : Exec P A)
      → Ends P before pre post m
      → Ends P before pre post n
      → Ends P before pre post (if b then m else n)
  Ends-if true m n h k = h
  Ends-if false m n h k = k

module _ {P : Platform} {before : Rows} {A B : Type 0} {post later : P.Session → Type 0} where
  continue-Left :
      (r : Result A) (w : World P) (f : A → Exec P B)
      → Left P before post r w.session
      → ((a : A) → Ends P before post later (f a))
      → Left P before later (continue (r, w) f).0 (continue (r, w) f).1.session
  continue-Left (ok a) w f h k = (k a).at w h
  continue-Left (err e) w f h k = h

module _ {P : Platform} {before : Rows} {A B : Type 0} {pre post later : P.Session → Type 0} where
  pub Ends-bind :
      (m : Exec P A) (f : A → Exec P B)
      → Ends P before pre post m
      → ((a : A) → Ends P before post later (f a))
      → Ends P before pre later (m >>= f)
  unfolding ◌>>=◌
  Ends-bind m f km kf = record {
    at = λ w h. let (r, w') = m w in continue-Left r w' f (km.at w h) kf;
  }

module _ {P : Platform} (L : IsDocumented P) {before : Rows} where
  Left-commit :
      (r : Result Unit) (s : P.Session)
      → IsSettled P before s
      → Left P before {A = Unit} (IsSettled P before) r s
  Left-commit (ok a) s h = h
  Left-commit (err e) s h = h

  pub Ends-commit : Ends P before (IsPending P before) (IsSettled P before) (commit {P = P})
  Ends-commit = record {
    at = λ w h. Left-commit (commit w).0 (commit w).1.session (commit-IsSettled L w h);
  }

module _ {P : Platform} {before : Rows} {pre post : P.Session → Type 0} where
  -- An assignment or a new row, which the next commit flushes.
  pub Ends-modify :
      (f : P.Session → P.Session)
      → ((s : P.Session) → pre s → post (f s))
      → Ends P before pre post (modify {P = P} f)
  unfolding modify
  Ends-modify f keeps = record { at = λ w h. keeps w.session h }

module _ {P : Platform} (L : IsDocumented P) {before : Rows} where
  -- A flush that is refused rolls back.
  pub Ends-flush : Ends P before (IsPending P before) (IsPending P before) (flush {P = P})
  unfolding flush
  Ends-flush = record {
    at = λ w h. elim (Bool-cases (P.rejects w.session)) [
      | inl rejected ↦ rw rejected (rollback-IsSettled L w.session h)
      | inr accepted ↦ rw accepted (flush-IsPending L w.session h)
    ];
  }

module _ {P : Platform} {before : Rows} {A : Type 0} where
  IsSettled-Left :
      (r : Result A) (s : P.Session) → IsSettled P before s → Left P before (IsSettled P before) r s
  IsSettled-Left (ok a) s h = h
  IsSettled-Left (err e) s h = h

  -- What leaves the session alone.
  pub Ends-reads :
      (m : Exec P A)
      → ((w : World P) → (m w).1.session ≡ w.session)
      → Ends P before (IsSettled P before) (IsSettled P before) m
  Ends-reads m same = record { at = λ w h. IsSettled-Left (m w).0 _ (rw (same w) h) }

  -- What Redis does leaves the session alone.
  pub Ends-redis_command :
      (value : ℕ → P.Store → A) (effect : ℕ → P.Store → P.Store)
      → Ends P before (IsSettled P before) (IsSettled P before) (redis_command {P = P} value effect)
  unfolding redis_command
  Ends-redis_command value effect = record {
    at = λ w h.
        elim (P.answer w.readings)
          as (λ a.
            Left P before (IsSettled P before) (answered value effect w a).0
              (answered value effect w a).1.session) [ reply ↦ h | refused ↦ h | reply_lost ↦ h ];
  }

module _ {P : Platform} {before : Rows} where
  pub Ends-http_call :
      (call : HttpCall)
      → Ends P before (IsSettled P before) (IsSettled P before) (http_call {P = P} call)
  unfolding http_call
  Ends-http_call call = Ends-reads _ (λ w. refl)

-- The rule for a sequence, by what holds between its two parts.
module _ {P : Platform} {before : Rows} {A B : Type 0} {post : P.Session → Type 0} where
  pub Ends-bind_read :
      (m : Exec P A) (f : A → Exec P B)
      → Ends P before (IsSettled P before) (IsSettled P before) m
      → ((a : A) → Ends P before (IsSettled P before) post (f a))
      → Ends P before (IsSettled P before) post (m >>= f)
  Ends-bind_read = Ends-bind

  pub Ends-bind_write :
      (m : Exec P A) (f : A → Exec P B)
      → Ends P before (IsSettled P before) (IsPending P before) m
      → ((a : A) → Ends P before (IsPending P before) post (f a))
      → Ends P before (IsSettled P before) post (m >>= f)
  Ends-bind_write = Ends-bind

  pub Ends-bind_save :
      (m : Exec P A) (f : A → Exec P B)
      → Ends P before (IsPending P before) (IsSettled P before) m
      → ((a : A) → Ends P before (IsSettled P before) post (f a))
      → Ends P before (IsPending P before) post (m >>= f)
  Ends-bind_save = Ends-bind

  pub Ends-bind_kept :
      (m : Exec P A) (f : A → Exec P B)
      → Ends P before (IsPending P before) (IsPending P before) m
      → ((a : A) → Ends P before (IsPending P before) post (f a))
      → Ends P before (IsPending P before) post (m >>= f)
  Ends-bind_kept = Ends-bind

module _ {P : Platform} {before : Rows} {A : Type 0} where
  Left-IsSettled :
      (r : Result A) (s : P.Session) → Left P before (IsSettled P before) r s → IsSettled P before s
  Left-IsSettled (ok a) s h = h
  Left-IsSettled (err e) s h = h

  -- A coroutine that ends settled does so whether it returns or raises.
  pub Ends-settles :
      (m : Exec P A) (w : World P)
      → Ends P before (IsSettled P before) (IsSettled P before) m
      → IsSettled P before w.session
      → IsSettled P before (m w).1.session
  Ends-settles m w k h = Left-IsSettled (m w).0 (m w).1.session (k.at w h)

pub ruleset ends_rules = (
  Ends-pure, Ends-query, Ends-raise, Ends-or_raise, Ends-raise_if, Ends-skip, Ends-now, Ends-draw,
  Ends-bind_read, Ends-bind_write, Ends-bind_save, Ends-bind_kept, Ends-redis_command,
  Ends-http_call, Ends-lift,
)
