-- ===== src/Recording/Codec.antt =====
-- What the recorder and the readers take from encoding/json, crypto/sha256, the byte functions and
-- the BSON driver: a type of byte strings, and functions on it. `Laws` states what the code relies
-- on: decoding a line that was encoded gives it back, an encoded line begins with its type field,
-- it is not blank, and an encoded command is an object.
use percona_load_generator_m.Prelude.{ℕ, String, Bool, true, false, ◌≡◌, Result, ok, List}
use percona_load_generator_m.Prelude.Int.{ℤ}
use percona_load_generator_m.Recording.Format.{
  Header, OpLine, Trailer, line_header, line_op, line_trailer,
}

pub record Codec : Type 1 where
  pub Bytes : Type 0
  -- The command documents of the driver.
  pub Command : Type 0
  -- `EncodeCommand`: canonical Extended JSON, or the text of the error.
  pub encode_command : Command → Result String Bytes
  -- `json.Encoder.Encode` of a line, the newline included, or the text of the error.
  pub encode_op : OpLine Bytes → Result String Bytes
  pub encode_header : Header → Result String Bytes
  pub encode_trailer : Trailer → Result String Bytes
  -- `json.Unmarshal` of a line.
  pub decode_op : Bytes → Result String (OpLine Bytes)
  pub decode_header : Bytes → Result String Header
  pub decode_trailer : Bytes → Result String Trailer
  -- The "type" field of a line.
  pub decode_type : Bytes → Result String String
  -- `json.Valid`
  pub valid : Bytes → Bool
  -- `len`
  pub size : Bytes → ℕ
  -- `bytes.TrimRight(b, "\r\n")`
  pub trim_right : Bytes → Bytes
  -- `len(bytes.TrimSpace(b)) == 0`
  pub is_blank : Bytes → Bool
  -- `bytes.HasPrefix(b, prefix)` for the prefix that a line of a type begins with.
  pub has_type : Bytes → String → Bool
  -- `len(b) != 0 && b[0] == '{'`
  pub is_object : Bytes → Bool
  -- `HashBytes`; the sum of a `StreamHash` over commands; the sum that `CombineHashes` takes over
  -- sorted pairs.
  pub hash : Bytes → String
  pub stream_sum : List Bytes → String
  pub pairs_sum : List (ℤ × String) → String

pub record Laws (c : Codec) : Type 0 where
  pub op_back :
      (l : OpLine c.Bytes) (m : c.Command) (b : c.Bytes)
      → c.encode_command m ≡ ok l.cmd
      → c.encode_op l ≡ ok b
      → c.decode_op (c.trim_right b) ≡ ok l
  pub op_type :
      (l : OpLine c.Bytes) (b : c.Bytes)
      → l.kind ≡ line_op
      → c.encode_op l ≡ ok b
      → c.has_type (c.trim_right b) line_op ≡ true
  pub op_not_blank :
      (l : OpLine c.Bytes) (b : c.Bytes)
      → c.encode_op l ≡ ok b
      → c.is_blank (c.trim_right b) ≡ false
  pub command_object :
      (m : c.Command) (b : c.Bytes) → c.encode_command m ≡ ok b → c.is_object b ≡ true
  pub header_back :
      (h : Header) (b : c.Bytes)
      → c.encode_header h ≡ ok b
      → c.decode_header (c.trim_right b) ≡ ok h
  pub header_type :
      (h : Header) (b : c.Bytes)
      → h.kind ≡ line_header
      → c.encode_header h ≡ ok b
      → (c.has_type (c.trim_right b) line_op ≡ false)
        × (c.has_type (c.trim_right b) line_header ≡ true)
        × (c.is_blank (c.trim_right b) ≡ false)
  pub trailer_back :
      (t : Trailer) (b : c.Bytes)
      → c.encode_trailer t ≡ ok b
      → c.decode_trailer (c.trim_right b) ≡ ok t
  pub trailer_type :
      (t : Trailer) (b : c.Bytes)
      → t.kind ≡ line_trailer
      → c.encode_trailer t ≡ ok b
      → (c.has_type (c.trim_right b) line_op ≡ false)
        × (c.has_type (c.trim_right b) line_header ≡ false)
        × (c.has_type (c.trim_right b) line_trailer ≡ true)
        × (c.is_blank (c.trim_right b) ≡ false)
