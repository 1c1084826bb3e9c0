-- ===== src/Terminal/Typing.antt =====
-- Lines typed and read.
use mathlib.Core.List.{append_assoc, append-nil}
use indominus_os.Prelude.{
  ℕ, zero, suc, ◌+◌, ◌-◌, ◌≡◌, ◌≤◌, ◌<◌, refl, ap, sym, ◌∙◌, ◌⊎◌, inl, inr, min, Bool, true, false,
  not, ◌&&◌, none, some, List, [], ◌∷◌, ◌++◌, ltb, ◌==◌, arith, length, take, drop, All, Bool-cases,
  take_all, drop_all, length-append,
}
use indominus_os.Terminal.{
  Terminal, line_buf_size, is_canonical, is_backspace, append_byte, edit_line,
}
use indominus_os.Terminal.Reading.{span, take_committed, reset_if_drained}
use indominus_os.Terminal.Lines.{Ordered, View, view, edit_line_lem}

take-span :
    (buf : ℕ → ℕ) (from size n : ℕ) → span buf from (min size n) ≡ take size (span buf from n)
take-span buf from zero n = let e : min 0 n ≡ 0 = omega arith in rw e refl
take-span buf from (suc size) zero = let e : min (suc size) 0 ≡ 0 = omega arith in rw e refl
take-span buf from (suc size) (suc n) =
    let e : min (suc size) (suc n) ≡ suc (min size n) = omega arith in
    rw e (ap (λ l. buf from ∷ l) (take-span buf (from + 1) size n))

drop-span :
    (buf : ℕ → ℕ) (from size n : ℕ)
    → span buf (from + min size n) (n - min size n) ≡ drop size (span buf from n)
drop-span buf from zero n =
    let e : from + min 0 n ≡ from = omega arith in
    let f : n - min 0 n ≡ n = omega arith in rw (e, f) refl
drop-span buf from (suc size) zero = let e : 0 - min (suc size) 0 ≡ 0 = omega arith in rw e refl
drop-span buf from (suc size) (suc n) =
    let e : from + min (suc size) (suc n) ≡ from + 1 + min size n = omega arith in
    let f : suc n - min (suc size) (suc n) ≡ n - min size n = omega arith in
    rw (e, f) (drop-span buf (from + 1) size n)

reset_if_drained-view : (t : Terminal) → view (reset_if_drained t) ≡ view t
unfolding view
reset_if_drained-view t = elim (Bool-cases (t.line_r == t.line_w && t.line_e == t.line_w)) [
  | inr other ↦ rw other refl
  | inl drained ↦
      let a : t.line_w - t.line_r ≡ 0 = ground (arith, drained) in
      let b : t.line_e - t.line_w ≡ 0 = ground (arith, drained) in rw (drained, a, b) refl
]

reset_if_drained-Ordered : (t : Terminal) → Ordered t → Ordered (reset_if_drained t)
reset_if_drained-Ordered t o = elim (Bool-cases (t.line_r == t.line_w && t.line_e == t.line_w)) [
  | inr other ↦ rw other o
  | inl drained ↦ rw drained (record {
    read_committed = omega arith;
    committed_typed = omega arith;
    typed_room = omega arith;
  })
]

-- A read of up to `size` bytes takes the first `size` bytes that are available, leaves the rest and the
-- line being typed, and keeps the indices in order; there is nothing to take exactly if no byte is
-- available.
pub take_committed_lem :
    (size : ℕ) (t : Terminal)
    → Ordered t
    → ((t.line_r ≡ t.line_w) × ((view t).committed ≡ []) × (take_committed size t ≡ none))
      ⊎ ((t' : Terminal) × (take_committed size t ≡ some (take size (view t).committed, t'))
          × Ordered t'
          × (view t' ≡ record (view t) { committed = drop size (view t).committed }))
unfolding take_committed view
take_committed_lem size t o = elim (Bool-cases (ltb t.line_r t.line_w)) [
  | inr nothing ↦
      let e : t.line_r ≡ t.line_w = ground (arith, nothing, o.read_committed) in
      let n : t.line_w - t.line_r ≡ 0 = omega (arith, e) in inl (e, rw n refl, rw nothing refl)
  | inl some_left ↦
      let n = t.line_w - t.line_r in
      let t1 = record t { line_r = t.line_r + min size n } in
      let left : t.line_w - (t.line_r + min size n) ≡ n - min size n = omega arith in
      let o1 : Ordered t1 = record {
        read_committed = omega (arith, o.read_committed);
        committed_typed = o.committed_typed;
        typed_room = o.typed_room;
      } in
      inr (
        reset_if_drained t1,
        rw some_left
            (ap (λ l. some (l, reset_if_drained t1)) (take-span t.line_buf t.line_r size n)),
        reset_if_drained-Ordered t1 o1,
        reset_if_drained-view t1
            ∙ ap (λ k. view_of (span t.line_buf (t.line_r + min size n) k)) left
            ∙ ap view_of (drop-span t.line_buf t.line_r size n),
      )
]
  where
    view_of : List ℕ → View
    view_of l = record { committed = l; editing = span t.line_buf t.line_w (t.line_e - t.line_w) }

-- Keys that are appended to the line as they are.
abbrev pub is_plain : ℕ → Bool
is_plain byte = not (byte == 0x0A) && not (is_backspace byte)

pub type_keys : List ℕ → Terminal → Terminal
type_keys [] t = t
type_keys (byte ∷ rest) t = type_keys rest (edit_line byte t)

edit_line-same :
    (byte : ℕ) (t : Terminal)
    → is_plain byte ≡ true
    → is_canonical t ≡ true
    → t.line_e < line_buf_size
    → ((edit_line byte t).line_e ≡ t.line_e + 1) × (is_canonical (edit_line byte t) ≡ true)
unfolding edit_line append_byte is_canonical
edit_line-same byte t plain canon room =
    let no_enter : (byte == 0x0A) ≡ false = ground (arith, plain) in
    let no_erase : is_backspace byte ≡ false = ground (arith, plain) in
    let some_room : ltb t.line_e line_buf_size ≡ true = ground arith in
    (
      rw (no_enter, no_erase, some_room, canon) refl,
      rw (no_enter, no_erase, some_room, canon) canon,
    )

type_keys-view :
    (text : List ℕ) (t : Terminal)
    → All (λ byte. is_plain byte ≡ true) text
    → Ordered t
    → is_canonical t ≡ true
    → t.line_e + length text ≤ line_buf_size
    → Ordered (type_keys text t)
      × (is_canonical (type_keys text t) ≡ true)
      × (view (type_keys text t) ≡ record (view t) { editing = (view t).editing ++ text })
unfolding type_keys
type_keys-view [] t plain o canon room =
    (o, canon, ap (λ l. record (view t) { editing = l }) (sym (append-nil (view t).editing)))
type_keys-view (byte ∷ rest) t (plain, plains) o canon room =
    let no_erase : is_backspace byte ≡ false = ground (arith, plain) in
    let no_enter : (byte == 0x0A) ≡ false = ground (arith, plain) in
    let some_room : ltb t.line_e line_buf_size ≡ true = ground arith in
    let (o1, v1) = edit_line_lem byte t o canon (λ h. cc (h, no_erase)) in
    let (e1, canon1) = edit_line-same byte t plain canon (omega arith) in
    let (o2, canon2, v2) =
      type_keys-view rest (edit_line byte t) plains o1 canon1 (omega (arith, e1, room)) in
    let v1' : view (edit_line byte t)
        ≡ record (view t) { editing = (view t).editing ++ byte ∷ [] } =
      v1 ∙ rw (no_enter, no_erase, some_room) refl in
    (
      o2,
      canon2,
      v2
          ∙ ap (λ (v : View). record v { editing = v.editing ++ rest }) v1'
          ∙ ap (λ l. record (view t) { editing = l })
              (append_assoc (view t).editing (byte ∷ []) rest),
    )

-- While the indices are in order (read, committed, typed), which a backspace typed right after Enter
-- can break: a line of at least one byte that gets to the line buffer in canonical mode, ended by Enter,
-- with room for it, and without Enter, backspace or DEL in it (control bytes are kept as they are), is
-- what a reader then gets, after what was available and what had been typed before: a read of that many
-- bytes or more returns all of it, and leaves nothing.
pub type_line :
    (text : List ℕ) (size : ℕ) (t : Terminal)
    → All (λ byte. is_plain byte ≡ true) text
    → 0 < length text
    → Ordered t
    → is_canonical t ≡ true
    → t.line_e + length text ≤ line_buf_size
    → length ((view t).committed ++ ((view t).editing ++ text)) ≤ size
    → (t' : Terminal) × (take_committed size (edit_line 0x0A (type_keys text t))
        ≡ some ((view t).committed ++ ((view t).editing ++ text), t'))
      × (view t' ≡ record { committed = []; editing = [] })
type_line text size t plain pos o canon room enough =
    let (o1, canon1, v1) = type_keys-view text t plain o canon room in
    let t1 = type_keys text t in
    let (o2, v2) = edit_line_lem 0x0A t1 o1 canon1 (λ h. cc h) in
    let all : view (edit_line 0x0A t1)
        ≡ record { committed = (view t).committed ++ ((view t).editing ++ text); editing = [] } =
      v2 ∙ ap (λ (v : View). record v { committed = v.committed ++ v.editing; editing = [] }) v1 in
    let line = (view t).committed ++ ((view t).editing ++ text) in
    let avail : (view (edit_line 0x0A t1)).committed ≡ line = ap (λ (v : View). v.committed) all in
    elim (take_committed_lem size (edit_line 0x0A t1) o2) [
      | inl (_, empty, _) ↦
          let no_line : length line ≡ 0 = ap length (sym avail ∙ empty) in
          absurd (
            omega (
              arith,
              no_line,
              pos,
              length-append (view t).committed ((view t).editing ++ text),
              length-append (view t).editing text,
            ))
      | inr (t', taken, o', v') ↦ (
        t',
        taken
            ∙ ap (λ l. some (take size l, t')) avail
            ∙ ap (λ l. some (l, t')) (take_all size line enough),
        v'
            ∙ ap (λ (v : View). record v { committed = drop size v.committed }) all
            ∙ ap (λ l. record { committed = l; editing = [] }) (drop_all size line enough),
      )
    ]
