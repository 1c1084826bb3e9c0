-- ===== src/Terminal/Scancodes.antt =====
-- `handler` of indo-kernel/src/keyboard.rs, given the scancode that it reads from the port.
use indominus_os.Prelude.{
  ℕ, ◌+◌, ◌-◌, Bool, true, false, ◌&&◌, ◌||◌, Option, none, some, List, [], ◌∷◌, leb, ◌==◌,
  if◌then◌else◌, get_elem?,
}
use indominus_os.Sched.{Scheduler}
use indominus_os.Pipe.Table.{Pipes}
use indominus_os.Terminal.{Terminal, line_discipline_input}

-- From scancode 0 on; the rest of the 128 entries are 0.
abbrev scancode_to_ascii : List ℕ
scancode_to_ascii =
    0 ∷ 0 ∷ b'1' ∷ b'2' ∷ b'3' ∷ b'4' ∷ b'5' ∷ b'6' ∷ b'7' ∷ b'8' ∷ b'9' ∷ b'0' ∷ b'-' ∷ b'=' ∷ 0
    ∷ 0 ∷ b'q' ∷ b'w' ∷ b'e' ∷ b'r' ∷ b't' ∷ b'y' ∷ b'u' ∷ b'i' ∷ b'o' ∷ b'p' ∷ b'[' ∷ b']' ∷ 0 ∷ 0
    ∷ b'a' ∷ b's' ∷ b'd' ∷ b'f' ∷ b'g' ∷ b'h' ∷ b'j' ∷ b'k' ∷ b'l' ∷ b';' ∷ 0x27 ∷ b'`' ∷ 0 ∷ 0x5C
    ∷ b'z' ∷ b'x' ∷ b'c' ∷ b'v' ∷ b'b' ∷ b'n' ∷ b'm' ∷ b',' ∷ b'.' ∷ b'/' ∷ 0 ∷ b'*' ∷ 0 ∷ b' ' ∷ 0
    ∷ 0 ∷ 0 ∷ 0 ∷ 0 ∷ 0 ∷ 0 ∷ 0 ∷ 0 ∷ 0 ∷ 0 ∷ 0 ∷ 0 ∷ 0 ∷ 0 ∷ 0 ∷ b'-' ∷ 0 ∷ 0 ∷ 0 ∷ b'+' ∷ []

abbrev or_zero : Option ℕ → ℕ
or_zero none = 0
or_zero (some a) = a

unfoldable pub ascii_of : ℕ → ℕ
ascii_of scancode = or_zero (get_elem? scancode_to_ascii scancode)

abbrev shift_table : List (ℕ × ℕ)
shift_table =
    (b'1', b'!')
    ∷ (b'2', b'@')
    ∷ (b'3', b'#')
    ∷ (b'4', b'$')
    ∷ (b'5', b'%')
    ∷ (b'6', b'^')
    ∷ (b'7', b'&')
    ∷ (b'8', b'*')
    ∷ (b'9', b'(')
    ∷ (b'0', b')')
    ∷ (b'-', b'_')
    ∷ (b'=', b'+')
    ∷ (b'[', b'{')
    ∷ (b']', b'}')
    ∷ (0x5C, b'|')
    ∷ (b';', b':')
    ∷ (0x27, 0x22)
    ∷ (b'`', b'~')
    ∷ (b',', b'<')
    ∷ (b'.', b'>')
    ∷ (b'/', b'?')
    ∷ []

abbrev or_self : List (ℕ × ℕ) → ℕ → ℕ
or_self [] a = a
or_self ((plain, shifted) ∷ rest) a = if a == plain then shifted else or_self rest a

unfoldable pub with_shift : ℕ → ℕ
with_shift ascii =
    if leb b'a' ascii && leb ascii b'z' then ascii - b'a' + b'A' else or_self shift_table ascii

abbrev is_shift : ℕ → Bool
is_shift code = code == 0x2A || code == 0x36

unfoldable pub handler : ℕ → Pipes → Terminal → Scheduler → Terminal × Scheduler
unfolding line_discipline_input ascii_of with_shift
handler scancode pipes t s =
    let ascii = ascii_of scancode in
    if leb 0x80 scancode
    then (if is_shift (scancode - 0x80) then (record t { shift_held = false }, s) else (t, s))
    else if is_shift scancode
    then (record t { shift_held = true }, s)
    else if scancode == 0x0E
    then line_discipline_input 0x08 pipes t s
    else if scancode == 0x1C
    then line_discipline_input 0x0A pipes t s
    else if scancode == 0x39
    then line_discipline_input b' ' pipes t s
    else if ascii == 0
    then (t, s)
    else line_discipline_input (if t.shift_held then with_shift ascii else ascii) pipes t s
