-- ===== src/Host/Session/Events/Stuck.antt =====
-- A wait under openOpsMu for a request that no app will start, of addClientOp in amp/host/host.go.
use mathlib.Core.Option.{some-injective, none-ne-some}
use amp_host_go.Base.{
  ℕ, ◌≡◌, ◌≢◌, refl, sym, ◌∙◌, false, some, List, [], ◌∷◌, ◌==◌, arith, get_elem?, Bool-cases, inl,
  inr, All,
}
use amp_host_go.Host.Session.{ClientOp, Waiting, Session, update_op}
use amp_host_go.Host.Session.Closing.Laws.{get_elem?-update_op}
use amp_host_go.Host.Session.Events.{take_from_inbox}

abbrev pub IsUnstarted : List ClientOp → ℕ → Type 0
IsUnstarted ops p = (op : ClientOp) × (get_elem? ops p ≡ some op) × (op.started ≡ false)

-- The session waits for a request that is not started and that no app has in its inbox or is
-- serving.
pub record IsStuck (w : Waiting) (s : Session) : Type 0 where
  pub waits : s.waiting ≡ some w
  pub unstarted : IsUnstarted s.ops w.parent_at
  pub unsent : All (λ e. e.1 ≢ w.parent_at) s.inbox
  pub unserved : All (λ e. e.1 ≢ w.parent_at) s.serving

abbrev pub Stays : Waiting → Session → Session → Type 0
Stays w s t = IsStuck w t × (t.open_ops ≡ s.open_ops)

pub IsUnstarted-update_op :
    (ops : List ClientOp) (i p : ℕ) (f : ClientOp → ClientOp)
    → i ≢ p
    → IsUnstarted ops p
    → IsUnstarted (update_op ops i f) p
IsUnstarted-update_op ops i p f n (op, e, h) =
    let ne : (i == p) ≡ false = ground arith in (op, rw (get_elem?-update_op ops i p f, ne) e, h)

pub take_from_inbox-All :
    (P : ℕ × ℕ → Type 0) (app : ℕ) (m : List (ℕ × ℕ)) → All P m → All P (take_from_inbox app m).1
unfolding take_from_inbox
take_from_inbox-All P app [] a = tt
take_from_inbox-All P app ((b, i) ∷ rest) a = elim (Bool-cases (b == app)) [
  | inl t ↦ rw (take_from_inbox, t) a.1
  | inr f ↦ rw (take_from_inbox, f) (a.0, take_from_inbox-All P app rest a.1)
]

-- The request that an app takes is one of its inbox.
pub take_from_inbox-ne :
    (app i p : ℕ) (m : List (ℕ × ℕ))
    → (take_from_inbox app m).0 ≡ some i
    → All (λ e. e.1 ≢ p) m
    → i ≢ p
unfolding take_from_inbox
take_from_inbox-ne app i p [] e a = absurd (none-ne-some i e)
take_from_inbox-ne app i p ((b, j) ∷ rest) e a = elim (Bool-cases (b == app)) [
  | inl t ↦ let same : j ≡ i = some-injective _ _ (sym (rw t refl) ∙ e) in λ q. a.0 (same ∙ q)
  | inr f ↦ take_from_inbox-ne app i p rest (sym (rw f refl) ∙ e) a.1
]

pub update-Stays :
    (w : Waiting) (s t : Session) (i : ℕ) (f : ClientOp → ClientOp)
    → i ≢ w.parent_at
    → t.waiting ≡ s.waiting
    → t.ops ≡ update_op s.ops i f
    → t.inbox ≡ s.inbox
    → t.serving ≡ s.serving
    → t.open_ops ≡ s.open_ops
    → IsStuck w s
    → Stays w s t
update-Stays w s t i f n a b c g d k = (
  record {
    waits = a ∙ k.waits;
    unstarted = rw b (IsUnstarted-update_op s.ops i w.parent_at f n k.unstarted);
    unsent = rw c k.unsent;
    unserved = rw g k.unserved;
  },
  d,
)

pub Stays-trans : (w : Waiting) (s t u : Session) → Stays w s t → Stays w t u → Stays w s u
Stays-trans w s t u (a, b) (d, e) = (d, e ∙ b)

pub same-Stays :
    (w : Waiting) (s t : Session)
    → t.waiting ≡ s.waiting
    → t.ops ≡ s.ops
    → All (λ e. e.1 ≢ w.parent_at) t.inbox
    → All (λ e. e.1 ≢ w.parent_at) t.serving
    → t.open_ops ≡ s.open_ops
    → IsStuck w s
    → Stays w s t
same-Stays w s t a b c g d k =
    (record { waits = a ∙ k.waits; unstarted = rw b k.unstarted; unsent = c; unserved = g }, d)
