-- ===== src/Kernel/Keyboard/Keys.antt =====
-- The keys of src/keyid.h, and the tables of src/keyboard.cc from scan codes to keys.
use Prim.Native.Nat.{bit_and}
use liumos.Prelude.{ℕ, ◌+◌, ◌==◌, Bool, not, ◌&&◌, List, [], ◌∷◌}

abbrev pub mask_break : ℕ
mask_break = 0x8000

abbrev pub mask_extended : ℕ
mask_extended = 0x4000

abbrev pub attr_shift : ℕ
attr_shift = 0x0100

abbrev pub attr_ctrl : ℕ
attr_ctrl = 0x0200

abbrev pub k_esc : ℕ
k_esc = mask_extended + 0

abbrev pub k_f1 : ℕ
k_f1 = mask_extended + 1

abbrev pub k_f2 : ℕ
k_f2 = mask_extended + 2

abbrev pub k_f3 : ℕ
k_f3 = mask_extended + 3

abbrev pub k_f4 : ℕ
k_f4 = mask_extended + 4

abbrev pub k_f5 : ℕ
k_f5 = mask_extended + 5

abbrev pub k_f6 : ℕ
k_f6 = mask_extended + 6

abbrev pub k_f7 : ℕ
k_f7 = mask_extended + 7

abbrev pub k_f8 : ℕ
k_f8 = mask_extended + 8

abbrev pub k_f9 : ℕ
k_f9 = mask_extended + 9

abbrev pub k_f10 : ℕ
k_f10 = mask_extended + 10

abbrev pub k_f11 : ℕ
k_f11 = mask_extended + 11

abbrev pub k_f12 : ℕ
k_f12 = mask_extended + 12

abbrev pub k_num_lock : ℕ
k_num_lock = mask_extended + 13

abbrev pub k_scroll_lock : ℕ
k_scroll_lock = mask_extended + 14

abbrev pub k_caps_lock : ℕ
k_caps_lock = mask_extended + 15

abbrev pub k_shift_l : ℕ
k_shift_l = mask_extended + 16

abbrev pub k_shift_r : ℕ
k_shift_r = mask_extended + 17

abbrev pub k_ctrl_l : ℕ
k_ctrl_l = mask_extended + 18

abbrev pub k_alt_l : ℕ
k_alt_l = mask_extended + 20

abbrev pub k_sys_rq : ℕ
k_sys_rq = mask_extended + 27

abbrev pub k_kanji : ℕ
k_kanji = mask_extended + 39

abbrev pub k_hiragana : ℕ
k_hiragana = mask_extended + 40

abbrev pub k_henkan : ℕ
k_henkan = mask_extended + 41

abbrev pub k_muhenkan : ℕ
k_muhenkan = mask_extended + 42

abbrev pub k_backspace : ℕ
k_backspace = mask_extended + 64

abbrev pub k_tab : ℕ
k_tab = mask_extended + 65

abbrev pub k_enter : ℕ
k_enter = mask_extended + 66

abbrev pub k_no_input : ℕ
k_no_input = mask_extended + 0xFF

-- Of the key pad.
abbrev pub ten_key : ℕ → ℕ
ten_key c = 0x0100 + c

unfoldable pub is_with_shift : ℕ → Bool
is_with_shift k = not (bit_and k attr_shift == 0)

unfoldable pub is_with_ctrl : ℕ → Bool
is_with_ctrl k = not (bit_and k attr_ctrl == 0)

unfoldable pub is_char : (k c : ℕ) → Bool
is_char k c = bit_and k mask_extended == 0 && bit_and k 0x00FF == c

unfoldable pub is_break : ℕ → Bool
is_break k = not (bit_and k mask_break == 0)

-- `k & ~kMaskAttr`, on 16 bits.
unfoldable pub without_attr : ℕ → ℕ
without_attr k = bit_and k 0xFCFF

abbrev pub key_code_table : List ℕ
key_code_table =
    0
    ∷ k_esc
    ∷ b'1'
    ∷ b'2'
    ∷ b'3'
    ∷ b'4'
    ∷ b'5'
    ∷ b'6'
    ∷ b'7'
    ∷ b'8'
    ∷ b'9'
    ∷ b'0'
    ∷ b'-'
    ∷ b'^'
    ∷ k_backspace
    ∷ k_tab
    ∷ b'Q'
    ∷ b'W'
    ∷ b'E'
    ∷ b'R'
    ∷ b'T'
    ∷ b'Y'
    ∷ b'U'
    ∷ b'I'
    ∷ b'O'
    ∷ b'P'
    ∷ b'@'
    ∷ b'['
    ∷ k_enter
    ∷ k_ctrl_l
    ∷ b'A'
    ∷ b'S'
    ∷ b'D'
    ∷ b'F'
    ∷ b'G'
    ∷ b'H'
    ∷ b'J'
    ∷ b'K'
    ∷ b'L'
    ∷ b';'
    ∷ b':'
    ∷ k_kanji
    ∷ k_shift_l
    ∷ b']'
    ∷ b'Z'
    ∷ b'X'
    ∷ b'C'
    ∷ b'V'
    ∷ b'B'
    ∷ b'N'
    ∷ b'M'
    ∷ b','
    ∷ b'.'
    ∷ b'/'
    ∷ k_shift_r
    ∷ ten_key (b'*')
    ∷ k_alt_l
    ∷ b' '
    ∷ k_caps_lock
    ∷ k_f1
    ∷ k_f2
    ∷ k_f3
    ∷ k_f4
    ∷ k_f5
    ∷ k_f6
    ∷ k_f7
    ∷ k_f8
    ∷ k_f9
    ∷ k_f10
    ∷ k_num_lock
    ∷ k_scroll_lock
    ∷ ten_key (b'7')
    ∷ ten_key (b'8')
    ∷ ten_key (b'9')
    ∷ ten_key (b'-')
    ∷ ten_key (b'4')
    ∷ ten_key (b'5')
    ∷ ten_key (b'6')
    ∷ ten_key (b'+')
    ∷ ten_key (b'1')
    ∷ ten_key (b'2')
    ∷ ten_key (b'3')
    ∷ ten_key (b'0')
    ∷ ten_key (b'.')
    ∷ k_sys_rq
    ∷ 0
    ∷ 0
    ∷ k_f11
    ∷ k_f12
    ∷ 0
    ∷ 0
    ∷ 0
    ∷ 0
    ∷ 0
    ∷ 0
    ∷ 0
    ∷ 0
    ∷ 0
    ∷ 0
    ∷ 0
    ∷ 0
    ∷ 0
    ∷ 0
    ∷ 0
    ∷ 0
    ∷ 0
    ∷ 0
    ∷ 0
    ∷ 0
    ∷ 0
    ∷ 0
    ∷ 0
    ∷ k_hiragana
    ∷ 0
    ∷ 0
    ∷ b'_'
    ∷ 0
    ∷ 0
    ∷ 0
    ∷ 0
    ∷ 0
    ∷ k_henkan
    ∷ 0
    ∷ k_muhenkan
    ∷ 0
    ∷ 92
    ∷ 0
    ∷ 0
    ∷ []

abbrev pub key_code_table_with_shift : List ℕ
key_code_table_with_shift =
    0 ∷ 0 ∷ b'!' ∷ 34 ∷ b'#' ∷ b'$' ∷ b'%' ∷ b'&' ∷ 39 ∷ b'(' ∷ b')' ∷ b'~' ∷ b'=' ∷ b'~' ∷ 0 ∷ 0
    ∷ 0 ∷ 0 ∷ 0 ∷ 0 ∷ 0 ∷ 0 ∷ 0 ∷ 0 ∷ 0 ∷ 0 ∷ b'`' ∷ 123 ∷ 0 ∷ 0 ∷ 0 ∷ 0 ∷ 0 ∷ 0 ∷ 0 ∷ 0 ∷ 0 ∷ 0 ∷ 0
    ∷ b'+' ∷ b'*' ∷ 0 ∷ 0 ∷ 125 ∷ 0 ∷ 0 ∷ 0 ∷ 0 ∷ 0 ∷ 0 ∷ 0 ∷ b'<' ∷ b'>' ∷ b'?' ∷ 0 ∷ 0 ∷ 0 ∷ 0 ∷ 0
    ∷ 0 ∷ 0 ∷ 0 ∷ 0 ∷ 0 ∷ 0 ∷ 0 ∷ 0 ∷ 0 ∷ 0 ∷ 0 ∷ 0 ∷ 0 ∷ 0 ∷ 0 ∷ 0 ∷ 0 ∷ 0 ∷ 0 ∷ 0 ∷ 0 ∷ 0 ∷ 0 ∷ 0
    ∷ 0 ∷ 0 ∷ 0 ∷ 0 ∷ 0 ∷ 0 ∷ 0 ∷ 0 ∷ 0 ∷ 0 ∷ 0 ∷ 0 ∷ 0 ∷ 0 ∷ 0 ∷ 0 ∷ 0 ∷ 0 ∷ 0 ∷ 0 ∷ 0 ∷ 0 ∷ 0 ∷ 0
    ∷ 0 ∷ 0 ∷ 0 ∷ 0 ∷ 0 ∷ 0 ∷ 0 ∷ 0 ∷ b'_' ∷ 0 ∷ 0 ∷ 0 ∷ 0 ∷ 0 ∷ 0 ∷ 0 ∷ 0 ∷ 0 ∷ b'|' ∷ 0 ∷ 0 ∷ []
