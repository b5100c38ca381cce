-- ===== src/Keyboard/Layout.antt =====
-- `kbd_EN` of Kernel/keyboard.c: for each scan code the character alone, with shift, with caps lock,
-- and with both. Characters are bytes; NOCHAR, -1, is 255.
use gat_os_v.Base.{ℕ, List, [], ◌∷◌}

pub record Key : Type 0 where
  pub code : ℕ
  pub alone : ℕ
  pub shifted : ℕ
  pub capped : ℕ
  pub both : ℕ

abbrev key : ℕ → ℕ → ℕ → ℕ → ℕ → Key
key code alone shifted capped both = record {
  code = code;
  alone = alone;
  shifted = shifted;
  capped = capped;
  both = both;
}

unfoldable pub kbd_en : List Key
kbd_en =
    key 0x00 255 255 255 255
    ∷ key 0x01 255 255 255 255
    ∷ key 0x02 49 33 49 33
    ∷ key 0x03 50 64 50 64
    ∷ key 0x04 51 35 51 35
    ∷ key 0x05 52 36 52 36
    ∷ key 0x06 53 37 53 37
    ∷ key 0x07 54 94 54 94
    ∷ key 0x08 55 38 55 38
    ∷ key 0x09 56 42 56 42
    ∷ key 0x0a 57 40 57 40
    ∷ key 0x0b 48 41 48 41
    ∷ key 0x0c 45 95 45 95
    ∷ key 0x0d 61 43 61 43
    ∷ key 0x0e 8 8 8 8
    ∷ key 0x0f 9 9 9 9
    ∷ key 0x10 113 81 81 113
    ∷ key 0x11 119 87 87 119
    ∷ key 0x12 101 69 69 101
    ∷ key 0x13 114 82 82 114
    ∷ key 0x14 116 84 84 116
    ∷ key 0x15 121 89 89 121
    ∷ key 0x16 117 85 85 117
    ∷ key 0x17 105 73 73 105
    ∷ key 0x18 111 79 79 111
    ∷ key 0x19 112 80 80 112
    ∷ key 0x1a 91 123 91 123
    ∷ key 0x1b 93 125 93 125
    ∷ key 0x1c 10 10 10 10
    ∷ key 0x1d 255 255 255 255
    ∷ key 0x1e 97 65 65 97
    ∷ key 0x1f 115 83 83 115
    ∷ key 0x20 100 68 68 100
    ∷ key 0x21 102 70 70 102
    ∷ key 0x22 103 71 71 103
    ∷ key 0x23 104 72 72 104
    ∷ key 0x24 106 74 74 106
    ∷ key 0x25 107 75 75 107
    ∷ key 0x26 108 76 76 108
    ∷ key 0x27 59 58 59 58
    ∷ key 0x28 39 34 39 34
    ∷ key 0x29 96 126 96 126
    ∷ key 0x2a 42 42 42 42
    ∷ key 0x2b 92 124 255 124
    ∷ key 0x2c 122 90 90 122
    ∷ key 0x2d 120 88 88 120
    ∷ key 0x2e 99 67 67 99
    ∷ key 0x2f 118 86 86 118
    ∷ key 0x30 98 66 66 98
    ∷ key 0x31 110 78 78 110
    ∷ key 0x32 109 77 77 109
    ∷ key 0x33 44 60 44 60
    ∷ key 0x34 46 62 46 62
    ∷ key 0x35 47 63 47 63
    ∷ key 0x36 54 54 54 54
    ∷ key 0x37 42 255 255 255
    ∷ key 0x38 255 255 255 255
    ∷ key 0x39 32 32 32 32
    ∷ key 0x3a 58 58 58 58
    ∷ key 0x3b 255 255 255 255
    ∷ key 0x3c 255 255 255 255
    ∷ key 0x3d 255 255 255 255
    ∷ key 0x3e 255 255 255 255
    ∷ key 0x3f 255 255 255 255
    ∷ key 0x40 255 255 255 255
    ∷ key 0x41 255 255 255 255
    ∷ key 0x42 255 255 255 255
    ∷ key 0x43 255 255 255 255
    ∷ key 0x44 255 255 255 255
    ∷ key 0x45 255 255 255 255
    ∷ key 0x46 255 255 255 255
    ∷ key 0x47 55 255 255 255
    ∷ key 0x48 255 255 255 255
    ∷ key 0x49 57 255 255 255
    ∷ key 0x4a 45 255 255 255
    ∷ key 0x4b 255 255 255 255
    ∷ key 0x4c 53 255 255 255
    ∷ key 0x4d 255 255 255 255
    ∷ key 0x4e 43 255 255 255
    ∷ key 0x4f 49 255 255 255
    ∷ key 0x50 255 255 255 255
    ∷ key 0x51 51 255 255 255
    ∷ key 0x52 48 255 255 255
    ∷ key 0x53 46 255 255 255
    ∷ key 0x57 255 255 255 255
    ∷ key 0x58 255 255 255 255
    ∷ []
