-- ===== src/Kui/Keycode.antt =====
-- lib/kui/kui_cgdb_key.h and the table of lib/kui/kui_term.c that names the keys.
-- A text is the list of its bytes, all ASCII. `enum cgdb_key` starts at 10000.
use cgdb.Base.{ℕ, List, [], ◌∷◌, codes}
use Prim.Native.String.{String}

-- The first and the last constant of `enum cgdb_key`.
abbrev pub cgdb_key_esc : ℕ
cgdb_key_esc = 10000

abbrev pub cgdb_key_error : ℕ
cgdb_key_error = 10049

-- `struct cgdb_keycode_data`.
pub record KeycodeData : Type 0 where
  pub key : ℕ
  pub keycode : List ℕ
  pub key_as_string : List ℕ

abbrev row : ℕ → String → String → KeycodeData
row k c s = record { key = k; keycode = codes c; key_as_string = codes s }

-- `cgdb_keycodes`, without the row of CGDB_KEY_ERROR that ends it.
unfoldable pub cgdb_keycodes : List KeycodeData
cgdb_keycodes =
    row 65 "<S-a>" "<shift a>"
    ∷ row 66 "<S-b>" "<shift b>"
    ∷ row 67 "<S-c>" "<shift c>"
    ∷ row 68 "<S-d>" "<shift d>"
    ∷ row 69 "<S-e>" "<shift e>"
    ∷ row 70 "<S-f>" "<shift f>"
    ∷ row 71 "<S-g>" "<shift g>"
    ∷ row 72 "<S-h>" "<shift h>"
    ∷ row 73 "<S-i>" "<shift i>"
    ∷ row 74 "<S-j>" "<shift j>"
    ∷ row 75 "<S-k>" "<shift k>"
    ∷ row 76 "<S-l>" "<shift l>"
    ∷ row 77 "<S-m>" "<shift m>"
    ∷ row 78 "<S-n>" "<shift n>"
    ∷ row 79 "<S-o>" "<shift o>"
    ∷ row 80 "<S-p>" "<shift p>"
    ∷ row 81 "<S-q>" "<shift q>"
    ∷ row 82 "<S-r>" "<shift r>"
    ∷ row 83 "<S-s>" "<shift s>"
    ∷ row 84 "<S-t>" "<shift t>"
    ∷ row 85 "<S-u>" "<shift u>"
    ∷ row 86 "<S-v>" "<shift v>"
    ∷ row 87 "<S-w>" "<shift w>"
    ∷ row 88 "<S-x>" "<shift x>"
    ∷ row 89 "<S-y>" "<shift y>"
    ∷ row 90 "<S-z>" "<shift z>"
    ∷ row 10000 "<Esc>" "CGDB_KEY_ESC"
    ∷ row 10001 "<Up>" "CGDB_KEY_UP"
    ∷ row 10002 "<Down>" "CGDB_KEY_DOWN"
    ∷ row 10003 "<Left>" "CGDB_KEY_LEFT"
    ∷ row 10004 "<Right>" "CGDB_KEY_RIGHT"
    ∷ row 10005 "<Home>" "CGDB_KEY_HOME"
    ∷ row 10006 "<End>" "CGDB_KEY_END"
    ∷ row 10007 "<PageUp>" "CGDB_KEY_PPAGE"
    ∷ row 10008 "<PageDown>" "CGDB_KEY_NPAGE"
    ∷ row 10009 "<Del>" "CGDB_KEY_DC"
    ∷ row 10010 "<Insert>" "CGDB_KEY_IC"
    ∷ row 10011 "<F1>" "CGDB_KEY_F1"
    ∷ row 10012 "<F2>" "CGDB_KEY_F2"
    ∷ row 10013 "<F3>" "CGDB_KEY_F3"
    ∷ row 10014 "<F4>" "CGDB_KEY_F4"
    ∷ row 10015 "<F5>" "CGDB_KEY_F5"
    ∷ row 10016 "<F6>" "CGDB_KEY_F6"
    ∷ row 10017 "<F7>" "CGDB_KEY_F7"
    ∷ row 10018 "<F8>" "CGDB_KEY_F8"
    ∷ row 10019 "<F9>" "CGDB_KEY_F9"
    ∷ row 10020 "<F10>" "CGDB_KEY_F10"
    ∷ row 10021 "<F11>" "CGDB_KEY_F11"
    ∷ row 10022 "<F12>" "CGDB_KEY_F12"
    ∷ row 10023 "<C-a>" "CGDB_KEY_CTRL_A"
    ∷ row 10024 "<C-b>" "CGDB_KEY_CTRL_B"
    ∷ row 10025 "<C-c>" "CGDB_KEY_CTRL_C"
    ∷ row 10026 "<C-d>" "CGDB_KEY_CTRL_D"
    ∷ row 10027 "<C-e>" "CGDB_KEY_CTRL_E"
    ∷ row 10028 "<C-f>" "CGDB_KEY_CTRL_F"
    ∷ row 10029 "<C-g>" "CGDB_KEY_CTRL_G"
    ∷ row 10030 "<C-h>" "CGDB_KEY_CTRL_H"
    ∷ row 10031 "<C-i>" "CGDB_KEY_CTRL_I"
    ∷ row 10032 "<C-j>" "CGDB_KEY_CTRL_J"
    ∷ row 10033 "<C-k>" "CGDB_KEY_CTRL_K"
    ∷ row 10034 "<C-l>" "CGDB_KEY_CTRL_L"
    ∷ row 10035 "<C-m>" "CGDB_KEY_CTRL_M"
    ∷ row 10036 "<C-n>" "CGDB_KEY_CTRL_N"
    ∷ row 10037 "<C-o>" "CGDB_KEY_CTRL_O"
    ∷ row 10038 "<C-p>" "CGDB_KEY_CTRL_P"
    ∷ row 10039 "<C-q>" "CGDB_KEY_CTRL_Q"
    ∷ row 10040 "<C-r>" "CGDB_KEY_CTRL_R"
    ∷ row 10041 "<C-s>" "CGDB_KEY_CTRL_S"
    ∷ row 10042 "<C-t>" "CGDB_KEY_CTRL_T"
    ∷ row 10043 "<C-u>" "CGDB_KEY_CTRL_U"
    ∷ row 10044 "<C-v>" "CGDB_KEY_CTRL_V"
    ∷ row 10045 "<C-w>" "CGDB_KEY_CTRL_W"
    ∷ row 10046 "<C-x>" "CGDB_KEY_CTRL_X"
    ∷ row 10047 "<C-y>" "CGDB_KEY_CTRL_Y"
    ∷ row 10048 "<C-z>" "CGDB_KEY_CTRL_Z"
    ∷ row 0 "<Nul>" "<Zero>"
    ∷ row 10030 "<BS>" "<Backspace>"
    ∷ row 10031 "<Tab>" "<Tab>"
    ∷ row 10032 "<NL>" "<linefeed>"
    ∷ row 10034 "<FF>" "<formfeed>"
    ∷ row 10035 "<CR>" "<carriage return>"
    ∷ row 10035 "<Return>" "<carriage return>"
    ∷ row 10035 "<Enter>" "<carriage return>"
    ∷ row 32 "<Space>" "<space>"
    ∷ row 60 "<lt>" "<less-than>"
    ∷ row 92 "<Bslash>" "<backslash>"
    ∷ row 124 "<Bar>" "<vertical bar>"
    ∷ row 127 "<Del>" "<delete>"
    ∷ []
