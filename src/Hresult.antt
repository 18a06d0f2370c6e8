-- ===== src/Hresult.antt =====
-- The HRESULT codes of src/KeePassKeyWin.Provider/src/com/. A code is held as its `u32` bit
-- pattern, in which the program compares and prints it; `HRESULT(c as i32)` is negative when bit 31
-- of `c` is set.
use kee_pass_key_win.Prelude.{ℕ, Bool, leb}

-- `HRESULT::is_err`: the `i32` is negative.
abbrev pub is_err : ℕ → Bool
is_err hr = leb 0x80000000 hr

abbrev pub s_ok : ℕ
s_ok = 0

abbrev pub e_notimpl : ℕ
e_notimpl = 0x80004001

abbrev pub e_nointerface : ℕ
e_nointerface = 0x80004002

abbrev pub e_abort : ℕ
e_abort = 0x80004004

abbrev pub e_fail : ℕ
e_fail = 0x80004005

abbrev pub e_accessdenied : ℕ
e_accessdenied = 0x80070005

abbrev pub e_outofmemory : ℕ
e_outofmemory = 0x8007000e

abbrev pub e_invalidarg : ℕ
e_invalidarg = 0x80070057

abbrev pub e_credential_excluded : ℕ
e_credential_excluded = 0x80070216

abbrev pub nte_bad_signature : ℕ
nte_bad_signature = 0x80090006

abbrev pub nte_exists : ℕ
nte_exists = 0x8009000f

abbrev pub nte_not_found : ℕ
nte_not_found = 0x80090011
