-- ===== src/Consensus/Node/Proposing.antt =====
-- Propose of internal/consensus: the entry that a leader takes in, and the requests for it.
use crossfault.Prelude.{
  ℕ, ◌+◌, ◌<◌, ◌^◌, ◌≡◌, ◌≢◌, ◌⊎◌, refl, subst, sym, ap, ◌∙◌, true, none, some, Option, [], ◌∷◌,
  ◌++◌, Bytes, NodeId, NodeId-Key, inl, inr, arith, contains, u64,
}
use crossfault.Platform.{Platform}
use crossfault.Messages.{Entry}
use crossfault.Crypt.Envelope.{kind_append_entries}
use crossfault.Consensus.Log.{Log, append, append_chained, chained, log_len}
use crossfault.Consensus.Log.Chain.{IsChained, append-IsChained}
use crossfault.Consensus.State.{Node, Role, leader, proposed, log_event, members_of}
use crossfault.Consensus.Node.{next_for, append_req_for, broadcast_append}
use crossfault.Consensus.Node.Deliver.{propose}
use crossfault.Consensus.Node.Quiet.{broadcast_append-Kept}
use crossfault.Consensus.Member.Linked.{HasLine}
use crossfault.Consensus.Node.Posting.{Posted, request_for, append_to_all-Posted}

leader-cases : (r : Role) → (r ≡ leader) ⊎ (r ≢ leader)
leader-cases r = ground arith

module _ (P : Platform) where
  -- What Propose does: it fails on a node that does not lead. On a leader, the log is the one before with one
  -- entry behind it, of the leader's term and with the command, and is chained; the node leads on in its term;
  -- and a request that is made of the new log stands in the outbox for every other member with a line.
  abbrev pub ProposeRule : Node P → Bytes → Option (Node P) → Type 0
  ProposeRule n cmd none = n.role ≢ leader
  ProposeRule n cmd (some n') =
      (n.role ≡ leader)
      × (n'.role ≡ leader)
      × (n'.current_term ≡ n.current_term)
      × ((e : Entry) × (n'.log.entries ≡ n.log.entries ++ e ∷ [])
          × (e.term ≡ n.current_term)
          × (e.index ≡ log_len n.log + 1)
          × (e.command ≡ cmd))
      × IsChained P n'.log
      × ((m : NodeId)
          → contains (members_of P n) m ≡ true
          → m ≢ n.id
          → HasLine P n m
          → Posted P m kind_append_entries (request_for P (record n { log = n'.log }) m) n')

  -- A leader with a command behind its log, before it sends.
  abbrev taken_in : Node P → Bytes → Node P
  taken_in n cmd = log_event P (record n { log = append P n.log n.current_term cmd }) (proposed cmd)

  propose-leads :
      (n : Node P) (cmd : Bytes)
      → n.role ≡ leader
      → propose P n cmd ≡ some (broadcast_append P (taken_in n cmd))
  unfolding propose
  propose-leads n cmd leads = ground (arith, leads)

  propose-follows : (n : Node P) (cmd : Bytes) → n.role ≢ leader → propose P n cmd ≡ none
  unfolding propose
  propose-follows n cmd follows = ground (arith, follows)

  append_entry :
      (l : Log) (term : ℕ) (cmd : Bytes)
      → log_len l + 1 < 2 ^ 64
      → (e : Entry) × ((append P l term cmd).entries ≡ l.entries ++ e ∷ [])
        × (e.term ≡ term)
        × (e.index ≡ log_len l + 1)
        × (e.command ≡ cmd)
  unfolding append append_chained chained
  append_entry l term cmd room =
      (chained P l term (u64 (log_len l + 1)) cmd, refl, refl, omega (arith, room), refl)

  request_for-taken_in :
      (n : Node P) (cmd : Bytes) (m : NodeId)
      → request_for P (taken_in n cmd) m
        ≡ request_for P (record n { log = append P n.log n.current_term cmd }) m
  unfolding log_event append_req_for next_for
  request_for-taken_in n cmd m = refl

  taken_in-ProposeRule :
      (n : Node P) (cmd : Bytes)
      → n.role ≡ leader
      → log_len n.log + 1 < 2 ^ 64
      → IsChained P n.log
      → ProposeRule n cmd (some (broadcast_append P (taken_in n cmd)))
  unfolding log_event
  taken_in-ProposeRule n cmd leads room c =
      let logged = taken_in n cmd in
      let n' = broadcast_append P logged in
      let kept = broadcast_append-Kept P logged in
      let (e, behind, of_term, at_end, has_cmd) = append_entry n.log n.current_term cmd room in
      (
        leads,
        kept.role ∙ leads,
        kept.current_term,
        (e, ap (λ l. l.entries) kept.log ∙ behind, of_term, at_end, has_cmd),
        subst (IsChained P) (sym kept.log) (append-IsChained P n.log n.current_term cmd room c),
        λ m member other line.
            subst (λ l. Posted P m kind_append_entries (request_for P (record n { log = l }) m) n')
              (sym kept.log)
              (subst (λ b. Posted P m kind_append_entries b n') (request_for-taken_in n cmd m)
                (unfold broadcast_append in
                  append_to_all-Posted P logged (members_of P n) m member other line)),
      )

  -- A proposal fails exactly on a node that does not lead. On a leader, it leaves the log as it was, with one
  -- entry behind it, which is of the leader's term, has the next index and the command, and keeps the log
  -- chained; the node goes on to lead in its term; and for every other member that it has a transcript with, a
  -- request made of the new log stands in the outbox. Stated for a node whose log is chained and whose next
  -- index does not wrap.
  pub propose-ProposeRule :
      (n : Node P) (cmd : Bytes)
      → log_len n.log + 1 < 2 ^ 64
      → IsChained P n.log
      → ProposeRule n cmd (propose P n cmd)
  propose-ProposeRule n cmd room c = elim (leader-cases n.role) [
    | inl leads ↦
        subst (ProposeRule n cmd) (sym (propose-leads n cmd leads))
          (taken_in-ProposeRule n cmd leads room c)
    | inr follows ↦ subst (ProposeRule n cmd) (sym (propose-follows n cmd follows)) follows
  ]
