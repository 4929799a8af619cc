-- ===== src/Fat32/Names.antt =====
-- fs/fat32/fat32.c with `wtomb` of lib/stringlib/stringlib.c: the name of an entry. A text is the bytes
-- that the pointer into the buffer has moved over; the string in it ends at its first 0.
use arm64_os.Base.{
  ℕ, zero, suc, ◌+◌, ◌-◌, ◌/◌, min, List, [], ◌∷◌, ◌++◌, length, Bool, false, Option, none, some,
  ltb, leb, ◌==◌, not, ◌&&◌, if◌then◌else◌,
}
use arm64_os.Fat32.{Bytes}
use arm64_os.Fat32.Dentry.{entry}

-- The loop, with the byte `c` at hand, room for `room` bytes and the source from `sptr` to `send`. The
-- last byte of the room is overwritten by 0.
unfoldable pub wtomb_loop : ℕ → Bytes → ℕ → ℕ → ℕ → List ℕ
wtomb_loop zero b c sptr send = []
wtomb_loop (suc room) b c sptr send =
    let c' = b (sptr + 1) in
    let rest = wtomb_loop room b c' (sptr + 2) send in
    if room == 0
    then 0 ∷ []
    else if c' == 0
    then c ∷ []
    else if ltb send (sptr + 2 + 2)
    then c ∷ c' ∷ []
    else c ∷ rest

unfoldable pub wtomb : ℕ → Bytes → ℕ → ℕ → List ℕ
unfolding wtomb_loop
wtomb buf_sz b src src_sz = wtomb_loop buf_sz b (b src) (src + 1) (src + src_sz)

-- LFN_UCS2_TO_ASCII for a field of `sz` bytes: the text with what is added, and whether to go on
unfoldable pub lfn_ucs2_to_ascii : ℕ → Bytes → ℕ → ℕ → List ℕ → List ℕ × Bool
unfolding wtomb
lfn_ucs2_to_ascii room b field sz text =
    let added = wtomb (room - length text) b field sz in
    (text ++ added, leb (sz / 2) (length added))

-- the three fields of a long-name entry
unfoldable pub lfn_parts : ℕ → Bytes → List ℕ → List ℕ × Bool
unfolding lfn_ucs2_to_ascii
lfn_parts room le text =
    let (text1, more1) = lfn_ucs2_to_ascii room le 1 10 text in
    let (text2, more2) = lfn_ucs2_to_ascii room le 14 12 text1 in
    let third = lfn_ucs2_to_ascii room le 28 4 text2 in
    if not more1 then (text1, false) else if not more2 then (text2, false) else third

-- the loop over the `n` entries from `le` on
unfoldable pub lfn_entries : ℕ → Bytes → ℕ → ℕ → List ℕ → List ℕ
unfolding lfn_parts
lfn_entries room buf le zero text = text
lfn_entries room buf le (suc n) text =
    let (text1, more) = lfn_parts room (entry buf le) text in
    let rest = lfn_entries room buf (suc le) n text1 in if more then rest else text1

unfoldable pub fill_filename_lfn : Bytes → ℕ → ℕ → ℕ → List ℕ
unfolding lfn_entries
fill_filename_lfn buf le d bufsz = lfn_entries (bufsz - 1) buf le (d - le) []

-- the bytes from `at` on up to the first 0, at most `n`
unfoldable pub base_chars : Bytes → ℕ → ℕ → List ℕ
base_chars d at zero = []
base_chars d at (suc n) =
    let rest = base_chars d (suc at) n in if d at == 0 then [] else d at ∷ rest

-- the bytes of the extension that are neither 0 nor a space, while there is room
unfoldable pub extension_chars : Bytes → ℕ → ℕ → ℕ → List ℕ
extension_chars d at zero room = []
extension_chars d at (suc n) room =
    let skipped = extension_chars d (suc at) n room in
    let added = d at ∷ extension_chars d (suc at) n (room - 1) in
    if room == 0 then [] else if not (d at == 0) && not (d at == 0x20) then added else skipped

unfoldable pub dentry_fill_name_short : Bytes → ℕ → List ℕ
unfolding base_chars extension_chars
dentry_fill_name_short d bufsz =
    let base = base_chars d 0 (min 8 bufsz) in
    let dotted = if ltb (length base) bufsz && not (d 8 == 0) then base ++ (0x2e ∷ []) else base in
    dotted ++ extension_chars d 8 3 (bufsz - length dotted)

-- the string that stands in a text
unfoldable pub c_string : List ℕ → List ℕ
c_string [] = []
c_string (c ∷ cs) = let rest = c_string cs in if c == 0 then [] else c ∷ rest

unfoldable pub dentry_get_filename : Bytes → ℕ → Option ℕ → ℕ → List ℕ
unfolding fill_filename_lfn dentry_fill_name_short c_string
dentry_get_filename buf d none bufsz = c_string (dentry_fill_name_short (entry buf d) bufsz)
dentry_get_filename buf d (some le) bufsz = c_string (fill_filename_lfn buf le d bufsz)
