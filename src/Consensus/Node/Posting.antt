-- ===== src/Consensus/Node/Posting.antt =====
-- What broadcastAppend of internal/consensus puts into the outbox.
use crossfault.Prelude.{
  ℕ, ◌≡◌, ◌≢◌, refl, subst, sym, ap, ◌∙◌, true, false, some, List, [], ◌∷◌, ◌++◌, Bytes, NodeId,
  NodeId-Key, length, ◌==◌, Option-cases, Bool-cases, inl, inr, arith, lookup, lookup-insert,
  get_or, same, same→eq, contains, get_elem?, get_elem?-some, get_elem?-append_lt,
  get_elem?-append_length,
}
use crossfault.Platform.{Platform}
use crossfault.Codec.{encode_append_req}
use crossfault.Crypt.Envelope.{Envelope, kind_append_entries, seal}
use crossfault.Crypt.Transcript.{next}
use crossfault.Consensus.State.{Node}
use crossfault.Consensus.Node.{
  send, draft, next_for, remember_next, append_req_for, append_to, append_to_all,
}
use crossfault.Consensus.Node.Sending.{append_to-any, append_to_all-any}
use crossfault.Consensus.Node.Quiet.{Kept, append_to-Kept, remember_next-Kept}
use crossfault.Consensus.Member.Linked.{HasLine, HasLine-send}

module _ (P : Platform) where
  -- An envelope with a payload for a member stands in the outbox.
  abbrev pub Posted : NodeId → ℕ → Bytes → Node P → Type 0
  Posted m kind payload n =
      (i : ℕ) × (env : Envelope) × (get_elem? n.outbox i ≡ some env)
      × (env.to ≡ m)
      × (env.kind ≡ kind)
      × (env.payload ≡ payload)

  Posted-send :
      (n : Node P) (to : NodeId) (k : ℕ) (b : Bytes) (m : NodeId) (kind : ℕ) (payload : Bytes)
      → Posted m kind payload n
      → Posted m kind payload (send P n to k b)
  unfolding send
  Posted-send n to k b m kind payload (i, env, here, to_m, what, body) =
      elim (Option-cases (lookup to n.send_tr)) [
        | inl missing ↦ rw (missing, send) (i, env, here, to_m, what, body)
        | inr (tr, found) ↦
            let sent = (next P tr n.ident (draft P to k n.current_term b)).1 in
            let still : get_elem? (n.outbox ++ sent ∷ []) i ≡ some env =
              get_elem?-append_lt n.outbox (sent ∷ []) i (get_elem?-some n.outbox i here) ∙ here in
            rw (found, send) (i, env, still, to_m, what, body)
      ]

  send-Posted :
      (n : Node P) (m : NodeId) (kind : ℕ) (payload : Bytes)
      → HasLine P n m
      → Posted m kind payload (send P n m kind payload)
  unfolding send next seal
  send-Posted n m kind payload (tr, found) =
      let sent = (next P tr n.ident (draft P m kind n.current_term payload)).1 in
      rw (found, send)
        (length n.outbox, sent, get_elem?-append_length n.outbox sent [], refl, refl, refl)

  Posted-fields :
      (m : NodeId) (kind : ℕ) (payload : Bytes) (n n' : Node P)
      → n'.send_tr ≡ n.send_tr
      → n'.outbox ≡ n.outbox
      → Posted m kind payload n
      → Posted m kind payload n'
  Posted-fields m kind payload n n' line out (i, env, here, to_m, what, body) =
      (i, env, ap (λ l. get_elem? l i) out ∙ here, to_m, what, body)

  HasLine-append_to : (n : Node P) (to m : NodeId) → HasLine P n m → HasLine P (append_to P n to) m
  HasLine-append_to n to m =
      append_to-any P (λ x. HasLine P x m) (λ x a k b. HasLine-send P x a k b m)
        (λ x x' tr out h. (h.0, ap (lookup m) tr ∙ h.1)) n to

  -- What the request to a member depends on.
  append_req_for-Kept :
      (n n' : Node P) (k : ℕ) → Kept P n n' → append_req_for P n' k ≡ append_req_for P n k
  unfolding append_req_for
  append_req_for-Kept n n' k kept =
      rw (kept.log, kept.current_term, kept.settings, kept.commit_index) refl

  send-next_index :
      (n : Node P) (to : NodeId) (k : ℕ) (b : Bytes) → (send P n to k b).next_index ≡ n.next_index
  unfolding send
  send-next_index n to k b = elim (Option-cases (lookup to n.send_tr)) [
    | inl missing ↦ rw (missing, send) refl
    | inr (tr, found) ↦ rw (found, send) refl
  ]

  next_index-remember_next :
      (n : Node P) (to m : NodeId) (k : ℕ)
      → same to m ≡ false
      → get_or m 0 (remember_next P n to k).next_index ≡ get_or m 0 n.next_index
  unfolding remember_next
  next_index-remember_next n to m k other = elim (Bool-cases (get_or to 0 n.next_index == 0)) [
    | inl unset ↦
        rw (unset, remember_next)
          (unfold get_or in ground (arith, lookup-insert to m k n.next_index, other))
    | inr stored ↦ rw (stored, remember_next) refl
  ]

  next_for-same :
      (n n' : Node P) (m : NodeId)
      → get_or m 0 n'.next_index ≡ get_or m 0 n.next_index
      → n'.log ≡ n.log
      → next_for P n' m ≡ next_for P n m
  unfolding next_for
  next_for-same n n' m stored log = rw (stored, log) refl

  next_for-append_to :
      (n : Node P) (to m : NodeId)
      → same to m ≡ false
      → next_for P (append_to P n to) m ≡ next_for P n m
  unfolding append_to
  next_for-append_to n to m other =
      let ready = remember_next P n to (next_for P n to) in
      let stored : get_or m 0 (append_to P n to).next_index ≡ get_or m 0 n.next_index =
        elim (Bool-cases (same to n.id)) [
          | inl itself ↦ rw (itself, append_to) refl
          | inr peer ↦
              rw (peer, append_to)
                (ap (get_or m 0) (send-next_index ready to _ _)
                  ∙ next_index-remember_next n to m (next_for P n to) other)
        ] in
      next_for-same n (append_to P n to) m stored (append_to-Kept P n to).log

  -- The request that a node has for a member, as bytes.
  abbrev pub request_for : Node P → NodeId → Bytes
  request_for n m = encode_append_req P (append_req_for P n (next_for P n m))

  remember_next-send_tr :
      (n : Node P) (m : NodeId) (k : ℕ) → (remember_next P n m k).send_tr ≡ n.send_tr
  unfolding remember_next
  remember_next-send_tr n m k = ground arith

  append_to-Posted :
      (n : Node P) (m : NodeId)
      → m ≢ n.id
      → HasLine P n m
      → Posted m kind_append_entries (request_for n m) (append_to P n m)
  unfolding append_to
  append_to-Posted n m other line =
      let ready = remember_next P n m (next_for P n m) in
      let request =
        append_req_for-Kept n ready (next_for P n m) (remember_next-Kept P n m (next_for P n m)) in
      let different : same m n.id ≡ false = ground (arith, other) in
      let ready_line : HasLine P ready m =
        (line.0, ap (lookup m) (remember_next-send_tr n m (next_for P n m)) ∙ line.1) in
      rw different (
        subst
          (λ r. Posted m kind_append_entries (encode_append_req P r) (
            send P ready m kind_append_entries
              (encode_append_req P (append_req_for P ready (next_for P n m)))))
          request (send-Posted ready m kind_append_entries _ ready_line))

  pub append_to_all-Posted :
      (n : Node P) (ms : List NodeId) (m : NodeId)
      → contains ms m ≡ true
      → m ≢ n.id
      → HasLine P n m
      → Posted m kind_append_entries (request_for n m) (append_to_all P n ms)
  unfolding append_to_all contains
  append_to_all-Posted n [] m member other line = absurd (ground arith)
  append_to_all-Posted n (x ∷ ms) m member other line = elim (Bool-cases (same x m)) [
    | inl here ↦
        let is_m : x ≡ m = same→eq x m here in
        append_to_all-any P (Posted m kind_append_entries (request_for n m))
          (λ y a k b. Posted-send y a k b m kind_append_entries (request_for n m))
          (λ y y'. Posted-fields m kind_append_entries (request_for n m) y y') (append_to P n x) ms
          (subst (λ z. Posted m kind_append_entries (request_for n m) (append_to P n z)) (sym is_m)
            (append_to-Posted n m other line))
    | inr there ↦
        let n' = append_to P n x in
        let kept = append_to-Kept P n x in
        let same_request : request_for n' m ≡ request_for n m = ap (encode_append_req P) (
          append_req_for-Kept n n' (next_for P n' m) kept
          ∙ ap (append_req_for P n) (next_for-append_to n x m there)) in
        subst (λ b. Posted m kind_append_entries b (append_to_all P n' ms)) same_request
          (append_to_all-Posted n' ms m (ground (arith, member, there))
            (λ e. other (e ∙ ap (λ s. s.id) kept.settings)) (HasLine-append_to n x m line))
  ]
