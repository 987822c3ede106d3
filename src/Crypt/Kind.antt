-- ===== src/Crypt/Kind.antt =====
-- The names of the message kinds: String of internal/crypt/envelope.go.
use crossfault.Prelude.{ℕ, ◌==◌, ◌≡◌, ◌<◌, ◌≤◌, [], ◌∷◌, Bytes, if◌then◌else◌, arith}
use crossfault.Crypt.Envelope.{
  kind_append_entries, kind_append_resp, kind_request_vote, kind_vote_resp, kind_pre_vote,
  kind_pre_vote_resp, kind_probe, kind_probe_resp,
}

unfoldable pub kind_string : ℕ → Bytes
kind_string k =
    if k == kind_append_entries
    then b'A' ∷ b'p' ∷ b'p' ∷ b'e' ∷ b'n' ∷ b'd' ∷ b'E' ∷ b'n' ∷ b't' ∷ b'r' ∷ b'i' ∷ b'e' ∷ b's'
      ∷ []
    else if k == kind_append_resp
    then b'A' ∷ b'p' ∷ b'p' ∷ b'e' ∷ b'n' ∷ b'd' ∷ b'R' ∷ b'e' ∷ b's' ∷ b'p' ∷ []
    else if k == kind_request_vote
    then b'R' ∷ b'e' ∷ b'q' ∷ b'u' ∷ b'e' ∷ b's' ∷ b't' ∷ b'V' ∷ b'o' ∷ b't' ∷ b'e' ∷ []
    else if k == kind_vote_resp
    then b'V' ∷ b'o' ∷ b't' ∷ b'e' ∷ b'R' ∷ b'e' ∷ b's' ∷ b'p' ∷ []
    else if k == kind_pre_vote
    then b'P' ∷ b'r' ∷ b'e' ∷ b'V' ∷ b'o' ∷ b't' ∷ b'e' ∷ []
    else if k == kind_pre_vote_resp
    then b'P' ∷ b'r' ∷ b'e' ∷ b'V' ∷ b'o' ∷ b't' ∷ b'e' ∷ b'R' ∷ b'e' ∷ b's' ∷ b'p' ∷ []
    else if k == kind_probe
    then b'P' ∷ b'r' ∷ b'o' ∷ b'b' ∷ b'e' ∷ []
    else if k == kind_probe_resp
    then b'P' ∷ b'r' ∷ b'o' ∷ b'b' ∷ b'e' ∷ b'R' ∷ b'e' ∷ b's' ∷ b'p' ∷ []
    else b'U' ∷ b'n' ∷ b'k' ∷ b'n' ∷ b'o' ∷ b'w' ∷ b'n' ∷ []

-- Two known kinds with one name are one kind.
pub kind_string_inj :
    (j k : ℕ) → 0 < j → j ≤ 8 → 0 < k → k ≤ 8 → kind_string j ≡ kind_string k → j ≡ k
unfolding kind_string
kind_string_inj j k hj hj' hk hk' h = ground arith
