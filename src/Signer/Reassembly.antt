-- ===== src/Signer/Reassembly.antt =====
-- A frame that arrives in pieces is put together again (signer/index.ts, the `data` handler).
use clmm_copybot.Common.{
  ℕ, suc, ◌+◌, ◌*◌, ◌/◌, ◌%◌, ◌<◌, ◌≤◌, ◌≡◌, refl, sym, ap, ◌∙◌, Bool, true, false, Option, none,
  some, List, [], ◌∷◌, ◌++◌, arith, leb, length, length-append, take, drop, Bool-cases, inl, inr,
}
use clmm_copybot.Signer.Frames.{
  Socket, start, read_header, take_payload, on_data, emit, feed, frame,
}

abbrev pub concat : List (List ℕ) → List ℕ
concat [] = []
concat (c ∷ cs) = c ++ concat cs

append-nil : (xs : List ℕ) → xs ++ [] ≡ xs
append-nil [] = refl
append-nil (x ∷ xs) = ap (λ ys. x ∷ ys) (append-nil xs)

append_assoc : (xs ys zs : List ℕ) → (xs ++ ys) ++ zs ≡ xs ++ (ys ++ zs)
append_assoc [] ys zs = refl
append_assoc (x ∷ xs) ys zs = ap (λ l. x ∷ l) (append_assoc xs ys zs)

take-length : (xs : List ℕ) → take (length xs) xs ≡ xs
take-length [] = refl
take-length (x ∷ xs) = ap (λ ys. x ∷ ys) (take-length xs)

drop-length : (xs : List ℕ) → drop (length xs) xs ≡ []
drop-length [] = refl
drop-length (x ∷ xs) = drop-length xs

length-zero : (xs : List ℕ) → length xs ≡ 0 → xs ≡ []
length-zero [] h = refl
length-zero (x ∷ xs) h = ground (arith, h)

-- What is as long as the whole has nothing after it.
long_prefix : (xs ys zs : List ℕ) → xs ++ ys ≡ zs → length zs ≤ length xs → (xs ≡ zs) × (ys ≡ [])
long_prefix xs ys zs e h =
    let nothing = length-zero ys (omega (arith, ap length e, length-append xs ys)) in
    (sym (append-nil xs) ∙ (ap (λ l. xs ++ l) (sym nothing) ∙ e), nothing)

append-empty : (xs ys : List ℕ) → xs ++ ys ≡ [] → (xs ≡ []) × (ys ≡ [])
append-empty [] ys e = (refl, e)
append-empty (x ∷ xs) ys e = ground (arith, e)

feed-empty : (cs : List (List ℕ)) → concat cs ≡ [] → feed cs start ≡ (start, [])
unfolding feed on_data read_header take_payload
feed-empty [] e = refl
feed-empty (c ∷ cs) e =
    let (first, rest) = append-empty c (concat cs) e in rw first (rw (feed-empty cs rest) refl)

abbrev waiting : ℕ → List ℕ → Socket
waiting n buf = record { buffer = buf; expected = some n }

-- What the rest of the chunks adds to one step.
abbrev continue : List (List ℕ) → Socket × Option (List ℕ) → Socket × List (List ℕ)
continue cs r = ((feed cs r.0).0, emit r.1 (feed cs r.0).1)

-- The payload is complete, or the chunks that follow complete it.
complete :
    (payload buf : List ℕ) (cs : List (List ℕ))
    → buf ++ concat cs ≡ payload
    → (length buf < length payload → feed cs (waiting (length payload) buf) ≡ (start, payload ∷ []))
    → continue cs (take_payload (waiting (length payload) buf)) ≡ (start, payload ∷ [])
unfolding take_payload
complete payload buf cs e later = elim (Bool-cases (leb (length payload) (length buf))) [
  | inl full ↦
      let (all, nothing) = long_prefix buf (concat cs) payload e (ground (arith, full)) in
      rw full (rw (all, drop-length payload, take-length payload) (rw (feed-empty cs nothing) refl))
  | inr part ↦ rw part (later (ground (arith, part)))
]

feed-waiting :
    (payload : List ℕ) (cs : List (List ℕ)) (buf : List ℕ)
    → buf ++ concat cs ≡ payload
    → length buf < length payload
    → feed cs (waiting (length payload) buf) ≡ (start, payload ∷ [])
unfolding feed on_data read_header
feed-waiting payload [] buf e h = absurd (ground (arith, h, ap length (sym (append-nil buf) ∙ e)))
feed-waiting payload (c ∷ cs) buf e h =
    complete payload (buf ++ c) cs (append_assoc buf c (concat cs) ∙ e)
      (feed-waiting payload cs (buf ++ c) (append_assoc buf c (concat cs) ∙ e))

abbrev HeaderSplit : List ℕ → List ℕ → List ℕ → ℕ → ℕ → ℕ → ℕ → Type 0
HeaderSplit xs rest payload a b c d =
    (ys : List ℕ) × ((xs ≡ a ∷ b ∷ c ∷ d ∷ ys) × (ys ++ rest ≡ payload))

abbrev tail_of : List ℕ → List ℕ
tail_of [] = []
tail_of (x ∷ xs) = xs

-- Four bytes or more hold the whole header.
header_split :
    (xs rest payload : List ℕ) (a b c d : ℕ)
    → 4 ≤ length xs
    → xs ++ rest ≡ a ∷ b ∷ c ∷ d ∷ payload
    → HeaderSplit xs rest payload a b c d
header_split (w ∷ x ∷ y ∷ z ∷ ys) rest payload a b c d h e =
    (ys, (ground (arith, e), ap (λ l. tail_of (tail_of (tail_of (tail_of l)))) e))
header_split [] rest payload a b c d h e = absurd (ground (arith, h))
header_split (w ∷ []) rest payload a b c d h e = absurd (ground (arith, h))
header_split (w ∷ x ∷ []) rest payload a b c d h e = absurd (ground (arith, h))
header_split (w ∷ x ∷ y ∷ []) rest payload a b c d h e = absurd (ground (arith, h))

bytes_of_length :
    (n : ℕ)
    → n < 4294967296
    → n / 16777216 * 16777216 + n / 65536 % 256 * 65536 + n / 256 % 256 * 256 + n % 256 ≡ n
bytes_of_length n h = omega arith

module _ (payload : List ℕ) (a b c d : ℕ)
    (len : a * 16777216 + b * 65536 + c * 256 + d ≡ length payload) where
  abbrev open_socket : List ℕ → Socket
  open_socket buf = record { buffer = buf; expected = none }

  feed-header :
      (cs : List (List ℕ)) (buf : List ℕ)
      → buf ++ concat cs ≡ a ∷ b ∷ c ∷ d ∷ payload
      → length buf < 4
      → feed cs (open_socket buf) ≡ (start, payload ∷ [])
  unfolding feed on_data read_header take_payload
  feed-header [] buf e h = absurd (ground (arith, h, ap length (sym (append-nil buf) ∙ e)))
  feed-header (k ∷ cs) buf e h = elim (Bool-cases (leb 4 (length (buf ++ k)))) [
    | inl full ↦
        let (ys, (front, tail)) =
          header_split (buf ++ k) (concat cs) payload a b c d (ground (arith, full))
            (append_assoc buf k (concat cs) ∙ e) in
        rw full (
          rw front (
            rw len (
              unfold take_payload in
              complete payload ys cs tail (feed-waiting payload cs ys tail))))
    | inr part ↦
        rw part
          (feed-header cs (buf ++ k) (append_assoc buf k (concat cs) ∙ e) (ground (arith, part)))
  ]

-- However a frame is cut into chunks, empty ones and cuts inside the length included, its payload
-- is handled once, when it is complete, and the connection is then ready for the next frame.
pub feed-frame :
    (payload : List ℕ) (cs : List (List ℕ))
    → length payload < 4294967296
    → concat cs ≡ frame payload
    → feed cs start ≡ (start, payload ∷ [])
unfolding frame
feed-frame payload cs h e =
    feed-header payload _ _ _ _ (bytes_of_length (length payload) h) cs [] e (omega arith)

take-append : (xs ys : List ℕ) → take (length xs) (xs ++ ys) ≡ xs
take-append [] ys = refl
take-append (x ∷ xs) ys = ap (λ l. x ∷ l) (take-append xs ys)

drop-append : (xs ys : List ℕ) → drop (length xs) (xs ++ ys) ≡ ys
drop-append [] ys = refl
drop-append (x ∷ xs) ys = drop-append xs ys

four_or_more : (n : ℕ) → leb 4 (suc (suc (suc (suc n)))) ≡ true
four_or_more n = ground arith

on_data-header :
    (a b c d : ℕ) (rest : List ℕ)
    → on_data (a ∷ b ∷ c ∷ d ∷ rest) start
      ≡ take_payload (waiting (a * 16777216 + b * 65536 + c * 256 + d) rest)
unfolding on_data read_header
on_data-header a b c d rest = rw (four_or_more (length rest)) refl

on_data-frame :
    (p rest : List ℕ)
    → length p < 4294967296
    → on_data (frame p ++ rest) start ≡ take_payload (waiting (length p) (p ++ rest))
unfolding frame
on_data-frame p rest h =
    on_data-header _ _ _ _ (p ++ rest)
    ∙ ap (λ n. take_payload (waiting n (p ++ rest))) (bytes_of_length (length p) h)

-- A data event handles one request at most: of two frames that arrive in one chunk the second
-- stays in the buffer, unread, until more data come.
pub on_data_two_frames :
    (p q : List ℕ)
    → length p < 4294967296
    → on_data (frame p ++ frame q) start ≡ (record { buffer = frame q; expected = none }, some p)
unfolding take_payload
on_data_two_frames p q h =
    on_data-frame p (frame q) h ∙ taken (leb (length p) (length (p ++ frame q))) refl
  where
    taken :
        (t : Bool)
        → leb (length p) (length (p ++ frame q)) ≡ t
        → take_payload (waiting (length p) (p ++ frame q))
          ≡ (record { buffer = frame q; expected = none }, some p)
    taken true e = rw e (rw (take-append p (frame q), drop-append p (frame q)) refl)
    taken false e = absurd (ground (arith, e, length-append p (frame q)))
