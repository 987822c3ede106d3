-- ===== src/Codec.antt =====
-- The payloads of internal/consensus/messages.go as JSON: encode and the decode functions. A decoder's
-- second result, whether Unmarshal gave no error, is `some` here: no caller reads the value without it.
use crossfault.Prelude.{Option, none, some, [], Bytes}
use crossfault.Messages.{AppendReq, AppendResp, VoteReq, VoteResp, ProbeReq, ProbeResp}
use crossfault.Platform.{Platform}

-- What Marshal gave, or nil if it failed.
unfoldable pub encode : Option Bytes → Bytes
encode none = []
encode (some b) = b

module _ (P : Platform) where
  unfoldable pub encode_append_req : AppendReq → Bytes
  unfolding encode
  encode_append_req m = encode (P.marshal_append_req m)

  unfoldable pub encode_append_resp : AppendResp → Bytes
  unfolding encode
  encode_append_resp m = encode (P.marshal_append_resp m)

  unfoldable pub encode_vote_req : VoteReq → Bytes
  unfolding encode
  encode_vote_req m = encode (P.marshal_vote_req m)

  unfoldable pub encode_vote_resp : VoteResp → Bytes
  unfolding encode
  encode_vote_resp m = encode (P.marshal_vote_resp m)

  unfoldable pub encode_probe_req : ProbeReq → Bytes
  unfolding encode
  encode_probe_req m = encode (P.marshal_probe_req m)

  unfoldable pub encode_probe_resp : ProbeResp → Bytes
  unfolding encode
  encode_probe_resp m = encode (P.marshal_probe_resp m)

  abbrev pub decode_append_req : Bytes → Option AppendReq
  decode_append_req b = P.unmarshal_append_req b

  abbrev pub decode_append_resp : Bytes → Option AppendResp
  decode_append_resp b = P.unmarshal_append_resp b

  abbrev pub decode_vote_req : Bytes → Option VoteReq
  decode_vote_req b = P.unmarshal_vote_req b

  abbrev pub decode_vote_resp : Bytes → Option VoteResp
  decode_vote_resp b = P.unmarshal_vote_resp b

  abbrev pub decode_probe_req : Bytes → Option ProbeReq
  decode_probe_req b = P.unmarshal_probe_req b

  abbrev pub decode_probe_resp : Bytes → Option ProbeResp
  decode_probe_resp b = P.unmarshal_probe_resp b
