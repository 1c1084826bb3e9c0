-- ===== src/Terminal/Lines.antt =====
-- The line buffer as two queues: what readers may take, and the line being typed.
use indominus_os.Prelude.{
  ℕ, zero, suc, ◌+◌, ◌-◌, ◌≡◌, ◌≤◌, ◌<◌, refl, ap, sym, ◌∙◌, inl, inr, Bool, true, List, [], ◌∷◌,
  ◌++◌, ltb, ◌==◌, if◌then◌else◌, update, arith, length, Bool-cases,
}
use indominus_os.Terminal.{
  Terminal, line_buf_size, is_canonical, is_backspace, backspace, append_byte, edit_line,
}
use indominus_os.Terminal.Reading.{span}

-- The documented order of the three indices, within the buffer.
pub record Ordered (t : Terminal) : Type 0 where
  pub read_committed : t.line_r ≤ t.line_w
  pub committed_typed : t.line_w ≤ t.line_e
  pub typed_room : t.line_e ≤ line_buf_size

pub record View : Type 0 where
  pub committed : List ℕ
  pub editing : List ℕ

unfoldable pub view : Terminal → View
view t = record {
  committed = span t.line_buf t.line_r (t.line_w - t.line_r);
  editing = span t.line_buf t.line_w (t.line_e - t.line_w);
}

abbrev pub without_last : List ℕ → List ℕ
without_last [] = []
without_last (x ∷ []) = []
without_last (x ∷ y ∷ rest) = x ∷ without_last (y ∷ rest)

-- What a key does to the two queues; `room` tells whether the buffer has room for a byte.
abbrev pub key : ℕ → Bool → View → View
key byte room v =
    if byte == 0x0A
    then record { committed = v.committed ++ v.editing; editing = [] }
    else if is_backspace byte
    then record v { editing = without_last v.editing }
    else if room
    then record v { editing = v.editing ++ byte ∷ [] }
    else v

pub span-add :
    (buf : ℕ → ℕ) (from a b : ℕ) → span buf from (a + b) ≡ span buf from a ++ span buf (from + a) b
span-add buf from zero b =
    let e : zero + b ≡ b = omega arith in let f : from + zero ≡ from = omega arith in rw (e, f) refl
span-add buf from (suc a) b =
    let e : suc a + b ≡ suc (a + b) = omega arith in
    let f : from + suc a ≡ from + 1 + a = omega arith in
    rw (e, f) (ap (λ l. buf from ∷ l) (span-add buf (from + 1) a b))

pub span-update :
    (buf : ℕ → ℕ) (i v from n : ℕ) → from + n ≤ i → span (update buf i v) from n ≡ span buf from n
span-update buf i v from zero h = refl
span-update buf i v from (suc n) h =
    let same : update buf i v from ≡ buf from = ground arith in
    rw (same, span-update buf i v (from + 1) n (omega arith)) refl

pub length-span : (buf : ℕ → ℕ) (from n : ℕ) → length (span buf from n) ≡ n
length-span buf from zero = refl
length-span buf from (suc n) = omega (arith, length-span buf (from + 1) n)

without_last-append : (l : List ℕ) (x : ℕ) → without_last (l ++ x ∷ []) ≡ l
without_last-append [] x = refl
without_last-append (y ∷ []) x = refl
without_last-append (y ∷ z ∷ l) x = ap (λ r. y ∷ r) (without_last-append (z ∷ l) x)

-- One more byte at the end.
span-suc :
    (buf : ℕ → ℕ) (from n : ℕ) → span buf from (n + 1) ≡ span buf from n ++ buf (from + n) ∷ []
span-suc buf from n = span-add buf from n 1

without_last-span :
    (buf : ℕ → ℕ) (from n : ℕ) → 0 < n → without_last (span buf from n) ≡ span buf from (n - 1)
without_last-span buf from n pos =
    let e : n ≡ n - 1 + 1 = omega arith in
    ap (λ k. without_last (span buf from k)) e
    ∙ ap without_last (span-suc buf from (n - 1))
    ∙ without_last-append (span buf from (n - 1)) (buf (from + (n - 1)))

span-typed :
    (buf : ℕ → ℕ) (from e v : ℕ)
    → from ≤ e
    → span (update buf e v) from (e + 1 - from) ≡ span buf from (e - from) ++ v ∷ []
span-typed buf from e v h =
    let n : e + 1 - from ≡ (e - from) + 1 = omega arith in
    let end : from + (e - from) ≡ e = omega arith in
    let last : update buf e v (from + (e - from)) ≡ v = ground (arith, end) in
    ap (span (update buf e v) from) n
    ∙ span-suc (update buf e v) from (e - from)
    ∙ ap (λ l. l ++ update buf e v (from + (e - from)) ∷ [])
        (span-update buf e v from (e - from) (omega arith))
    ∙ ap (λ x. span buf from (e - from) ++ x ∷ []) last

abbrev queues : List ℕ → List ℕ → View
queues committed editing = record { committed = committed; editing = editing }

-- The two queues by the indices.
abbrev queues_at : (ℕ → ℕ) → ℕ → ℕ → ℕ → View
queues_at buf r w e = queues (span buf r (w - r)) (span buf w (e - w))

commit-queues :
    (buf : ℕ → ℕ) (r w e : ℕ)
    → r ≤ w
    → w ≤ e
    → queues_at buf r e e ≡ queues (span buf r (w - r) ++ span buf w (e - w)) []
commit-queues buf r w e rw_le we =
    let all : e - r ≡ (w - r) + (e - w) = omega arith in
    let next : r + (w - r) ≡ w = omega arith in
    let none_left : e - e ≡ 0 = omega arith in
    ap (λ n. queues (span buf r n) (span buf e (e - e))) all
    ∙ ap (λ n. queues (span buf r ((w - r) + (e - w))) (span buf e n)) none_left
    ∙ ap (λ l. queues l []) (span-add buf r (w - r) (e - w))
    ∙ ap (λ k. queues (span buf r (w - r) ++ span buf k (e - w)) []) next

erase-queues :
    (buf : ℕ → ℕ) (r w e : ℕ)
    → w < e
    → queues_at buf r w (e - 1) ≡ queues (span buf r (w - r)) (without_last (span buf w (e - w)))
erase-queues buf r w e we =
    let one_less : e - 1 - w ≡ e - w - 1 = omega arith in
    ap (λ n. queues (span buf r (w - r)) (span buf w n)) one_less
    ∙ ap (λ l. queues (span buf r (w - r)) l) (sym (without_last-span buf w (e - w) (omega arith)))

store-queues :
    (buf : ℕ → ℕ) (r w e v : ℕ)
    → r ≤ w
    → w ≤ e
    → queues_at (update buf e v) r w (e + 1)
      ≡ queues (span buf r (w - r)) (span buf w (e - w) ++ v ∷ [])
store-queues buf r w e v rw_le we =
    ap (λ l. queues l (span (update buf e v) w (e + 1 - w)))
      (span-update buf e v r (w - r) (omega arith))
    ∙ ap (λ l. queues (span buf r (w - r)) l) (span-typed buf w e v we)

-- In canonical mode, while the indices are in order, a byte that gets to the line buffer, as all but
-- the signal characters do, acts on it as on two queues: Enter makes the line being typed available, a
-- backspace or DEL takes its last byte away, and any other byte, a control byte too, is appended to it
-- if there is room. This needs that a backspace or DEL comes only while the line being typed is not
-- empty; then the order of the indices is kept.
pub edit_line_lem :
    (byte : ℕ) (t : Terminal)
    → Ordered t
    → is_canonical t ≡ true
    → (is_backspace byte ≡ true → t.line_w < t.line_e)
    → Ordered (edit_line byte t)
      × (view (edit_line byte t) ≡ key byte (ltb t.line_e line_buf_size) (view t))
unfolding edit_line backspace append_byte view
edit_line_lem byte t o canon careful = elim (Bool-cases (byte == 0x0A)) [
  | inl enter ↦ rw enter (
    record {
      read_committed = omega (arith, o.read_committed, o.committed_typed);
      committed_typed = omega arith;
      typed_room = o.typed_room;
    },
    commit-queues t.line_buf t.line_r t.line_w t.line_e o.read_committed o.committed_typed,
  )
  | inr no_enter ↦ elim (Bool-cases (is_backspace byte)) [
    | inl erase ↦
        let we = careful erase in
        let left : ltb t.line_r t.line_e ≡ true = ground (arith, we, o.read_committed) in
        rw (no_enter, erase, left, canon)
          (
            record {
              read_committed = o.read_committed;
              committed_typed = omega (arith, we);
              typed_room = omega (arith, o.typed_room);
            },
            erase-queues t.line_buf t.line_r t.line_w t.line_e we,
          )
    | inr no_erase ↦ elim (Bool-cases (ltb t.line_e line_buf_size)) [
      | inr full ↦ rw (no_enter, no_erase, full) (o, refl)
      | inl room ↦
          rw (no_enter, no_erase, room, canon)
            (
              record {
                read_committed = o.read_committed;
                committed_typed = omega (arith, o.committed_typed);
                typed_room = ground (arith, room);
              },
              store-queues t.line_buf t.line_r t.line_w t.line_e byte o.read_committed
                  o.committed_typed,
            )
    ]
  ]
]
