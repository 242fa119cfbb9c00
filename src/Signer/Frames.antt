-- ===== src/Signer/Frames.antt =====
-- The frames of the signer's socket, a length of four bytes and that many bytes: signer/index.ts,
-- the `data` handler.
use clmm_copybot.Common.{
  ℕ, ◌+◌, ◌*◌, ◌/◌, ◌%◌, Option, none, some, List, [], ◌∷◌, ◌++◌, leb, if◌then◌else◌, length, take,
  drop,
}

pub record Socket : Type 0 where
  pub buffer : List ℕ
  pub expected : Option ℕ

abbrev pub start : Socket
start = record { buffer = []; expected = none }

-- `readUInt32BE(0)`, of four bytes.
abbrev pub read_uint32_be : List ℕ → ℕ
read_uint32_be (a ∷ b ∷ c ∷ d ∷ rest) = a * 16777216 + b * 65536 + c * 256 + d
read_uint32_be _ = 0

unfoldable pub read_header : Socket → Socket
read_header s = go s.expected
  where
    go : Option ℕ → Socket
    go (some n) = s
    go none =
        if leb 4 (length s.buffer)
        then record { buffer = drop 4 s.buffer; expected = some (read_uint32_be s.buffer) }
        else s

-- The payload that is handed to `handleRequest`, if it is complete.
unfoldable pub take_payload : Socket → Socket × Option (List ℕ)
take_payload s = go s.expected
  where
    go : Option ℕ → Socket × Option (List ℕ)
    go none = (s, none)
    go (some n) =
        if leb n (length s.buffer)
        then (record { buffer = drop n s.buffer; expected = none }, some (take n s.buffer))
        else (s, none)

unfoldable pub on_data : List ℕ → Socket → Socket × Option (List ℕ)
unfolding read_header take_payload
on_data chunk s = take_payload (read_header (record s { buffer = s.buffer ++ chunk }))

abbrev pub emit : Option (List ℕ) → List (List ℕ) → List (List ℕ)
emit none ps = ps
emit (some p) ps = p ∷ ps

-- The chunks of a connection, and the payloads handled.
unfoldable pub feed : List (List ℕ) → Socket → Socket × List (List ℕ)
unfolding on_data
feed [] s = (s, [])
feed (c ∷ cs) s = let rest = feed cs (on_data c s).0 in (rest.0, emit (on_data c s).1 rest.1)

-- What a client sends, and `writeUInt32BE` with the response.
unfoldable pub frame : List ℕ → List ℕ
frame payload =
    let n = length payload in n / 16777216 ∷ n / 65536 % 256 ∷ n / 256 % 256 ∷ n % 256 ∷ payload
