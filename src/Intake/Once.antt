-- ===== src/Intake/Once.antt =====
-- No transaction is queued twice in a row of notifications (src/index.ts, `monitor.start`).
use clmm_copybot.Common.{
  ℕ, suc, ◌+◌, ◌≤◌, ◌<◌, ◌≡◌, refl, ap, ◌∙◌, String, true, false, List, [], ◌∷◌, ◌++◌, arith,
  Bool-cases, inl, inr, ltb, length, length-append, if◌then◌else◌, has, is_text, str_eq, eq_iff,
}
use mathlib.Core.List.{append_assoc}
use clmm_copybot.Parser.{Programs}
use clmm_copybot.Queue.{Item, Queue, high, new_item, enqueue}
use clmm_copybot.Intake.{
  Task, Intake, max_processed, drop_first, remember, is_filtered, on_transaction,
}

-- One notification: a task and the time at which it comes.
unfoldable pub on_all : Programs → List (ℕ × Task) → Intake → Intake
on_all p [] s = s
on_all p ((now, t) ∷ ns) s = on_all p ns (on_transaction p now t s)

-- The tasks that are queued and have a signature.
abbrev pub queued : String → List (Item Task) → ℕ
queued signature [] = 0
queued signature (i ∷ is) =
    let n = queued signature is in if str_eq i.fn.signature signature then suc n else n

-- The signature stands in the set with at most `n` younger ones.
abbrev Young : String → ℕ → List String → Type 0
Young signature n xs =
    (older : List String) × (younger : List String) × (xs ≡ older ++ (signature ∷ younger))
    × (length younger ≤ n)

has-append : (s : String) (xs ys : List String) → has s (xs ++ (s ∷ ys)) ≡ true
has-append s [] ys = ground (arith, eq_iff s s)
has-append s (x ∷ xs) ys = ground (arith, has-append s xs ys)

Young-has : (s : String) (n : ℕ) (xs : List String) → Young s n xs → has s xs ≡ true
Young-has s n xs (older, younger, e, short) = rw e (has-append s older younger)

length-drop_first : (xs : List String) → length xs ≤ suc (length (drop_first xs))
length-drop_first [] = omega arith
length-drop_first (x ∷ xs) = ground arith

queued-append :
    (s : String) (xs ys : List (Item Task)) → queued s (xs ++ ys) ≡ queued s xs + queued s ys
queued-append s [] ys = omega arith
queued-append s (x ∷ xs) ys = ground (arith, queued-append s xs ys)

-- A further signature makes it at most one older, and the bound spares it.
drop-Young :
    (s t : String) (n : ℕ) (older younger : List String)
    → length younger ≤ n
    → suc n < max_processed
    → ltb max_processed (length ((older ++ (s ∷ younger)) ++ (t ∷ []))) ≡ true
    → Young s (suc n) (drop_first ((older ++ (s ∷ younger)) ++ (t ∷ [])))
drop-Young s t n [] younger short room over =
    absurd (ground (arith, length-append younger (t ∷ [])))
drop-Young s t n (x ∷ older) younger short room over = elim (Bool-cases (is_text x)) [
  | inl named ↦ rw named (
    older,
    younger ++ (t ∷ []),
    append_assoc older (s ∷ younger) (t ∷ []),
    ground (arith, length-append younger (t ∷ [])),
  )
  | inr blank ↦ rw blank (
    x ∷ older,
    younger ++ (t ∷ []),
    ap (λ l. x ∷ l) (append_assoc older (s ∷ younger) (t ∷ [])),
    ground (arith, length-append younger (t ∷ [])),
  )
]

remember-Young :
    (s t : String) (n : ℕ) (xs : List String)
    → Young s n xs
    → suc n < max_processed
    → Young s (suc n) (remember t xs)
unfolding remember
remember-Young s t n xs (older, younger, e, short) room =
    rw e (elim (Bool-cases (ltb max_processed (length ((older ++ (s ∷ younger)) ++ (t ∷ []))))) [
      | inl over ↦ rw over (drop-Young s t n older younger short room over)
      | inr fits ↦ rw fits (
        older,
        younger ++ (t ∷ []),
        append_assoc older (s ∷ younger) (t ∷ []),
        ground (arith, length-append younger (t ∷ [])),
      )
    ])

remember-fresh : (s : String) (xs : List String) → Young s 0 (remember s xs)
unfolding remember
remember-fresh s [] = ([], [], refl, omega arith)
remember-fresh s (x ∷ xs) = elim (Bool-cases (ltb max_processed (length ((x ∷ xs) ++ (s ∷ []))))) [
  | inl over ↦ elim (Bool-cases (is_text x)) [
    | inl named ↦ rw over (rw named (xs, [], refl, omega arith))
    | inr blank ↦ rw over (rw blank (x ∷ xs, [], refl, omega arith))
  ]
  | inr fits ↦ rw fits (x ∷ xs, [], refl, omega arith)
]

one_more :
    (s : String) (is : List (Item Task)) (i : Item Task)
    → queued s (is ++ (i ∷ []))
      ≡ (if str_eq i.fn.signature s then suc (queued s is) else queued s is)
one_more s is i = ground (arith, queued-append s is (i ∷ []))

high_queue-enqueue :
    (label : String) (t : Task) (now : ℕ) (q : Queue Task) (s : String)
    → queued s (enqueue label high t now q).high_queue
      ≡ (if str_eq t.signature s then suc (queued s q.high_queue) else queued s q.high_queue)
unfolding enqueue
high_queue-enqueue label t now q s =
    let i = new_item label high t now q in
    elim (Bool-cases q.draining) [
      | inl busy ↦ rw busy (unfold new_item in one_more s q.high_queue i)
      | inr clear ↦ rw clear (unfold new_item in one_more s q.high_queue i)
    ]

module _ (p : Programs) (signature : String) where
  abbrev count_in : Intake → ℕ
  count_in s = queued signature s.op_queue.high_queue

  -- A notification keeps the signature in the set, and does not queue it again.
  on_transaction-Young :
      (now : ℕ) (t : Task) (n : ℕ) (s : Intake)
      → Young signature n s.processed
      → suc n < max_processed
      → Young signature (suc n) (on_transaction p now t s).processed
        × (count_in (on_transaction p now t s) ≡ count_in s)
  unfolding on_transaction
  on_transaction-Young now t n s young room = elim (Bool-cases (has t.signature s.processed)) [
    | inl twice ↦ rw twice ((young.0, young.1, young.2, omega arith), refl)
    | inr first ↦
        let other : str_eq t.signature signature ≡ false =
          ground (arith, eq_iff t.signature signature, Young-has signature n s.processed young) in
        elim (Bool-cases (is_filtered p t.logs)) [
          | inl spam ↦
              rw first
                (rw spam (remember-Young signature t.signature n s.processed young room, refl))
          | inr wanted ↦ rw first (
              rw wanted (
                remember-Young signature t.signature n s.processed young room,
                high_queue-enqueue _ t now s.op_queue signature ∙ rw other refl,
              ))
        ]
  ]

  on_all-Young :
      (ns : List (ℕ × Task)) (n : ℕ) (s : Intake)
      → Young signature n s.processed
      → n + length ns < max_processed
      → count_in (on_all p ns s) ≡ count_in s
  unfolding on_all
  on_all-Young [] n s young room = refl
  on_all-Young ((now, t) ∷ ns) n s young room =
      let (young', same) = on_transaction-Young now t n s young (omega arith) in
      on_all-Young ns (suc n) (on_transaction p now t s) young' (omega arith) ∙ same

-- A transaction that is new is queued at most once, however often it is notified, and whatever else
-- is, within the next 999 notifications: the queue of HIGH operations gains at most one task with
-- its signature, and gains it unless the filter of spam drops it.
pub queued_once :
    (p : Programs) (now : ℕ) (t : Task) (ns : List (ℕ × Task)) (s : Intake)
    → has t.signature s.processed ≡ false
    → length ns < max_processed
    → let s' = on_all p ns (on_transaction p now t s) in
      queued t.signature s'.op_queue.high_queue ≡ (
        if is_filtered p t.logs
        then queued t.signature s.op_queue.high_queue
        else suc (queued t.signature s.op_queue.high_queue))
unfolding on_transaction
queued_once p now t ns s fresh few = elim (Bool-cases (is_filtered p t.logs)) [
  | inl spam ↦ rw fresh (
      rw spam
        (on_all-Young p t.signature ns 0 _ (remember-fresh t.signature s.processed) (omega arith)))
  | inr wanted ↦ rw fresh (
      rw wanted (
        on_all-Young p t.signature ns 0 _ (remember-fresh t.signature s.processed) (omega arith)
        ∙ high_queue-enqueue _ t now s.op_queue t.signature
        ∙ rw ((eq_iff t.signature t.signature).1 refl) refl))
]
