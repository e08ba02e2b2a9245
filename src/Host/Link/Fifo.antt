-- ===== src/Host/Link/Fifo.antt =====
-- Messages pass in their order.
use mathlib.Core.Path.{subst}
use mathlib.Core.Bool.{true≢false}
use mathlib.Core.List.{append_assoc, append-nil}
use amp_host_go.Base.{
  ℕ, ◌≤◌, ◌<◌, ◌≡◌, ◌≢◌, refl, sym, ap, ◌∙◌, Bool, true, false, not, ◌&&◌, ◌||◌, Option, none, some,
  List, [], ◌∷◌, ◌++◌, ◌==◌, ltb, if◌then◌else◌, length, length-append, Bool-cases, Option-cases,
  if_true, if_false, ==_iff, inl, inr, arith, All, All-append,
}
use amp_host_go.Host.Session.{TxMsg}
use amp_host_go.Host.Link.{
  Link, Sent, with_context, send_tx, forward, finish_out, receive, hand_over, LinkEvent, posts,
  forwards, finishes_out, receives, hands_over, starts_closing, is_done_now, link_step, link_run,
  new_link,
}

abbrev HasContext : TxMsg → Type 0
HasContext tx = tx.context_id ≢ 0

abbrev waiting : Option TxMsg → List TxMsg
waiting none = []
waiting (some tx) = tx ∷ []

-- Where the messages are. The last field is about a receiving loop that has not ended.
pub record IsFifo (login_id : ℕ) (s : Link) : Type 0 where
  pub same_login : s.login_id ≡ login_id
  pub out_order : s.accepted ≡ s.via_sent ++ s.tx_out
  pub few : length s.tx_out ≤ 4
  pub routed : All HasContext s.accepted
  pub closed_after : s.via_closed ≡ true → (s.is_done ≡ true) × (s.out_running ≡ false)
  pub in_order : s.in_running ≡ true → s.received ≡ s.handed ++ waiting s.pending

with_context-HasContext :
    (login_id : ℕ) (tx : TxMsg) → login_id ≢ 0 → HasContext (with_context login_id tx)
unfolding with_context
with_context-HasContext login_id tx n = elim (Bool-cases (tx.context_id == 0)) [
  | inl z ↦ λ e. n (sym (ap (λ (t : TxMsg). t.context_id) (if_true _ _ z)) ∙ e)
  | inr f ↦ λ e. true≢false (
      sym ((==_iff tx.context_id 0).1 (sym (ap (λ (t : TxMsg). t.context_id) (if_false _ _ f)) ∙ e))
      ∙ f)
]

posts-IsFifo :
    (id : ℕ) (tx : TxMsg) (prefers : Bool) (s : Link)
    → id ≢ 0
    → IsFifo id s
    → IsFifo id (send_tx tx prefers s).0
unfolding send_tx
posts-IsFifo id tx prefers s n i =
    let room = ltb (length s.tx_out) 4 && (prefers || not s.is_closing) in
    elim (Bool-cases room) [
      | inr f ↦ subst (λ (p : Link × Sent). IsFifo id p.0) (sym (if_false _ _ f)) i
      | inl t ↦
          let out = with_context s.login_id tx in
          let less : length s.tx_out < 4 = ground (arith, t) in
          subst (λ (p : Link × Sent). IsFifo id p.0) (sym (if_true _ _ t))
            (record {
              same_login = i.same_login;
              out_order =
                  ap (λ xs. xs ++ out ∷ []) i.out_order
                  ∙ append_assoc s.via_sent s.tx_out (out ∷ []);
              few = omega (arith, less, length-append s.tx_out (out ∷ []));
              routed =
                  All-append HasContext s.accepted (out ∷ []) i.routed
                    (with_context-HasContext s.login_id tx (λ e. n (sym i.same_login ∙ e)), tt);
              closed_after = i.closed_after;
              in_order = i.in_order;
            })
    ]

forward-IsFifo : (id : ℕ) (s : Link) → IsFifo id s → IsFifo id (forward s)
unfolding forward
forward-IsFifo id s i = elim (Bool-cases s.out_running) [
  | inr f ↦ subst (IsFifo id) (sym (if_false _ _ f)) i
  | inl t ↦ subst (IsFifo id) (sym (if_true _ _ t)) (taken s.tx_out refl)
]
  where
    taken :
        (out : List TxMsg)
        → out ≡ s.tx_out
        → IsFifo id (elim out [
          | [] ↦ s
          | tx ∷ rest ↦ record s { tx_out = rest; via_sent = s.via_sent ++ tx ∷ [] }
        ])
    taken [] e = i
    taken (tx ∷ rest) e = record {
      same_login = i.same_login;
      out_order =
          i.out_order
          ∙ ap (λ xs. s.via_sent ++ xs) (sym e)
          ∙ sym (append_assoc s.via_sent (tx ∷ []) rest);
      few =
          let more : length (tx ∷ rest) ≡ length s.tx_out = ap length e in
          omega (arith, i.few, more);
      routed = i.routed;
      closed_after = i.closed_after;
      in_order = i.in_order;
    }

finish_out-IsFifo : (id : ℕ) (s : Link) → IsFifo id s → IsFifo id (finish_out s)
unfolding finish_out
finish_out-IsFifo id s i = elim (Bool-cases (s.out_running && s.is_done)) [
  | inr f ↦ subst (IsFifo id) (sym (if_false _ _ f)) i
  | inl t ↦
      let finished : s.is_done ≡ true = ground (arith, t) in
      subst (IsFifo id) (sym (if_true _ _ t)) (record {
        same_login = i.same_login;
        out_order = i.out_order;
        few = i.few;
        routed = i.routed;
        closed_after = λ h. (finished, refl);
        in_order = i.in_order;
      })
]

receive-IsFifo : (id : ℕ) (got : Option TxMsg) (s : Link) → IsFifo id s → IsFifo id (receive got s)
unfolding receive
receive-IsFifo id got s i = elim (Option-cases s.pending) [
  | inr (tx, e) ↦ subst (IsFifo id) (sym (ap out e)) i
  | inl e ↦ subst (IsFifo id) (sym (ap out e)) (elim (Bool-cases s.in_running) [
    | inr f ↦ subst (IsFifo id) (sym (if_false _ _ f)) i
    | inl t ↦ subst (IsFifo id) (sym (if_true _ _ t)) (came got e t)
  ])
]
  where
    next : Option TxMsg → Link
    next g = elim g [
      | none ↦ record s { is_closing = true; in_running = false }
      | some tx ↦ record s { received = s.received ++ tx ∷ []; pending = some tx }
    ]

    out : Option TxMsg → Link
    out o = elim o [ some _ ↦ s | none ↦ if s.in_running then next got else s ]

    came : (g : Option TxMsg) → s.pending ≡ none → s.in_running ≡ true → IsFifo id (next g)
    came none e t = record {
      same_login = i.same_login;
      out_order = i.out_order;
      few = i.few;
      routed = i.routed;
      closed_after = i.closed_after;
      in_order = λ h. absurd (true≢false (sym h));
    }
    came (some tx) e t = record {
      same_login = i.same_login;
      out_order = i.out_order;
      few = i.few;
      routed = i.routed;
      closed_after = i.closed_after;
      in_order = λ h.
          ap (λ xs. xs ++ tx ∷ [])
            (i.in_order t ∙ ap (λ p. s.handed ++ waiting p) e ∙ append-nil s.handed);
    }

hand_over-IsFifo : (id : ℕ) (takes : Bool) (s : Link) → IsFifo id s → IsFifo id (hand_over takes s)
unfolding hand_over
hand_over-IsFifo id takes s i = elim (Option-cases s.pending) [
  | inl e ↦ subst (IsFifo id) (sym (ap out e)) i
  | inr (tx, e) ↦ subst (IsFifo id) (sym (ap out e)) (elim (Bool-cases (takes && not s.is_done)) [
    | inl t ↦ subst (IsFifo id) (sym (if_true _ _ t)) (record {
      same_login = i.same_login;
      out_order = i.out_order;
      few = i.few;
      routed = i.routed;
      closed_after = i.closed_after;
      in_order = λ h.
          i.in_order h ∙ ap (λ p. s.handed ++ waiting p) e ∙ sym (append-nil (s.handed ++ tx ∷ []));
    })
    | inr f ↦ subst (IsFifo id) (sym (if_false _ _ f)) (elim (Bool-cases s.is_done) [
      | inr g ↦ subst (IsFifo id) (sym (if_false _ _ g)) i
      | inl d ↦ subst (IsFifo id) (sym (if_true _ _ d)) (record {
        same_login = i.same_login;
        out_order = i.out_order;
        few = i.few;
        routed = i.routed;
        closed_after = i.closed_after;
        in_order = λ h. absurd (true≢false (sym h));
      })
    ])
  ])
]
  where
    out : Option TxMsg → Link
    out o = elim o [
      | none ↦ s
      | some tx ↦
          if takes && not s.is_done
          then record s { handed = s.handed ++ tx ∷ []; pending = none }
          else (if s.is_done then record s { pending = none; in_running = false } else s)
    ]

link_step-IsFifo :
    (id : ℕ) (e : LinkEvent) (s : Link) → id ≢ 0 → IsFifo id s → IsFifo id (link_step e s)
unfolding link_step
link_step-IsFifo id (posts tx prefers) s n i = posts-IsFifo id tx prefers s n i
link_step-IsFifo id forwards s n i = forward-IsFifo id s i
link_step-IsFifo id finishes_out s n i = finish_out-IsFifo id s i
link_step-IsFifo id (receives got) s n i = receive-IsFifo id got s i
link_step-IsFifo id (hands_over takes) s n i = hand_over-IsFifo id takes s i
link_step-IsFifo id starts_closing s n i = record {
  same_login = i.same_login;
  out_order = i.out_order;
  few = i.few;
  routed = i.routed;
  closed_after = i.closed_after;
  in_order = i.in_order;
}
link_step-IsFifo id is_done_now s n i = record {
  same_login = i.same_login;
  out_order = i.out_order;
  few = i.few;
  routed = i.routed;
  closed_after = λ h. (refl, (i.closed_after h).1);
  in_order = i.in_order;
}

run_from :
    (id : ℕ) (es : List LinkEvent) (s : Link) → id ≢ 0 → IsFifo id s → IsFifo id (link_run es s)
unfolding link_run
run_from id [] s n i = i
run_from id (e ∷ es) s n i = run_from id es (link_step e s) n (link_step-IsFifo id e s n i)

-- Once a session has a login ID, and however its calls of SendTx and the two loops interleave: what
-- SendTx accepted is given to the transport once and in order, but for the at most 4 messages that
-- are still in txOut, and each has a context ID; as long as the loop that receives runs, the
-- session gets what the transport received in order; and the transport is closed only when the
-- session is done and the loop that sends has ended.
pub link_run-IsFifo :
    (login_id : ℕ) (es : List LinkEvent)
    → login_id ≢ 0
    → IsFifo login_id (link_run es (new_link login_id))
link_run-IsFifo login_id es n = run_from login_id es (new_link login_id) n (record {
  same_login = refl;
  out_order = refl;
  few = omega arith;
  routed = tt;
  closed_after = λ h. absurd (true≢false (sym h));
  in_order = λ h. refl;
})
