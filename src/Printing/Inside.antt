-- ===== src/Printing/Inside.antt =====
-- A context that has written nothing outside of its room, and the steps that keep it so.
use arm64_os.Base.{
  ℕ, zero, suc, ◌+◌, ◌-◌, ◌*◌, ◌/◌, ◌%◌, ◌^◌, get_elem?, ◌>>=◌, ◌≤◌, ◌<◌, ◌≡◌, refl, arith, List,
  [], ◌∷◌, min, Bool, false, Option, none, some, if◌then◌else◌, ltb, ◌==◌, ◌⊎◌, inl, inr, ◌∙◌,
  Bool-cases,
}
use arm64_os.Strings.{Memory, store}
use arm64_os.Printing.{
  PrintfCtx, PrintNumSpec, dst_append_c, dst_append_s, dst_memset, number_10_loop, print_sign,
  print_fn_number_10_div, print_fn_number_10, decimal_table, print_fn_number_10_u,
  print_fn_number_10_d, take_sign, max_bit_pos, is_no, print_fn_prep_spec,
}
use arm64_os.Printing.Outside.{
  AllSome, AllSome-bind, if_cases, Outside, IsOut, store-Outside, memset-Outside,
}

-- The room is from `lo` to `hi`, and `m0` the memory at the start.
abbrev pub IsInside : Memory → ℕ → ℕ → PrintfCtx → Type 0
IsInside m0 lo hi c =
    (c.dst_end ≡ hi)
    × (lo ≤ c.dst)
    × (c.dst ≤ hi)
    × ((q : ℕ) → (q < lo) ⊎ (hi ≤ q) → c.mem q ≡ m0 q)

far : (lo hi p n q : ℕ) → lo ≤ p → p + n ≤ hi → (q < lo) ⊎ (hi ≤ q) → IsOut p n q
far lo hi p n q le fits (inl lt) = inl (omega arith)
far lo hi p n q le fits (inr ge) = inr (omega arith)

pub anything {ℓ} : {A : Type ℓ} (o : Option A) → AllSome (λ a. Unit) o
anything none = tt
anything (some a) = tt

module _ (m0 : Memory) (lo hi : ℕ) where
  -- `n` bytes are written, and `dst` moves by at most `n`
  pub IsInside-moved :
      (c c' : PrintfCtx) (n : ℕ)
      → IsInside m0 lo hi c
      → c.dst + n ≤ hi
      → c'.dst_end ≡ c.dst_end
      → c.dst ≤ c'.dst
      → c'.dst ≤ c.dst + n
      → Outside c.dst n c.mem c'.mem
      → IsInside m0 lo hi c'
  IsInside-moved c c' n (ends, above, below, same) fits e le ge out = (
    omega arith,
    omega arith,
    omega arith,
    λ q far_off. out q (far lo hi c.dst n q above fits far_off) ∙ same q far_off,
  )

  pub dst_append_c-IsInside :
      (ch : ℕ) (c : PrintfCtx) → IsInside m0 lo hi c → IsInside m0 lo hi (dst_append_c ch c)
  unfolding dst_append_c
  dst_append_c-IsInside ch c h = elim (Bool-cases (ltb c.dst c.dst_end)) [
    | inl room ↦ rw room (
        IsInside-moved c (record c { mem = store c.dst ch c.mem; dst = suc c.dst }) 1 h
          (ground (arith, h.0)) refl (omega arith) (omega arith)
          (store-Outside c.dst 1 ch c.mem (omega arith)))
    | inr full ↦ rw full h
  ]

  pub dst_append_s-IsInside :
      (chs : List ℕ) (c : PrintfCtx) → IsInside m0 lo hi c → IsInside m0 lo hi (dst_append_s chs c)
  unfolding dst_append_s
  dst_append_s-IsInside [] c h = h
  dst_append_s-IsInside (ch ∷ chs) c h =
      dst_append_s-IsInside chs (dst_append_c ch c) (dst_append_c-IsInside ch c h)

  pub dst_memset-IsInside :
      (val len : ℕ) (c : PrintfCtx) → IsInside m0 lo hi c → IsInside m0 lo hi (dst_memset val len c)
  unfolding dst_memset
  dst_memset-IsInside val len c h =
      let (ends, above, below, same) = h in
      IsInside-moved c (unfold dst_memset in dst_memset val len c) (min len (c.dst_end - c.dst)) h
        (omega arith) refl (omega arith) (omega arith)
        (memset-Outside c.dst val (min len (c.dst_end - c.dst)) c.mem)

  number_10_loop-IsInside :
      (fuel divider : ℕ) (c : PrintfCtx)
      → IsInside m0 lo hi c
      → IsInside m0 lo hi (number_10_loop fuel divider c)
  unfolding number_10_loop
  number_10_loop-IsInside zero divider c h = h
  number_10_loop-IsInside (suc fuel) divider c h = elim (Bool-cases (divider == 0)) [
    | inl done ↦ rw done h
    | inr more ↦
        rw more (number_10_loop-IsInside fuel (divider / 10) _ (dst_append_c-IsInside _ c h))
  ]

  print_sign-IsInside :
      (s : PrintNumSpec) (c : PrintfCtx)
      → IsInside m0 lo hi c
      → IsInside m0 lo hi (print_sign s c).0
  unfolding print_sign
  print_sign-IsInside s c h =
      if_cases (λ (r : PrintfCtx × ℕ). IsInside m0 lo hi r.0) s.is_neg_sign
        (dst_append_c-IsInside 0x2d c h)
        (if_cases (λ (r : PrintfCtx × ℕ). IsInside m0 lo hi r.0) c.flag_plus
          (dst_append_c-IsInside 0x2b c h)
          (if_cases (λ (r : PrintfCtx × ℕ). IsInside m0 lo hi r.0) c.flag_space
            (dst_append_c-IsInside 0x20 c h) h))

  -- what may be printed is printed inside of the room
  abbrev pub MayInside : Option PrintfCtx → Type 0
  MayInside o = AllSome (IsInside m0 lo hi) o

  print_fn_number_10_div-MayInside :
      (c : PrintfCtx) (wordlen : ℕ)
      → IsInside m0 lo hi c
      → MayInside (print_fn_number_10_div c wordlen)
  unfolding print_fn_number_10_div
  print_fn_number_10_div-MayInside c wordlen h =
      AllSome-bind (λ d. Unit) (IsInside m0 lo hi) (get_elem? decimal_table (wordlen - 1))
        (λ d. some (number_10_loop 20 d c)) (anything _) (λ d u. number_10_loop-IsInside 20 d c h)

  pub print_fn_number_10-MayInside :
      (c : PrintfCtx) (s : PrintNumSpec) → IsInside m0 lo hi c → MayInside (print_fn_number_10 c s)
  unfolding print_fn_number_10
  print_fn_number_10-MayInside c s h =
      let c1 = dst_memset 0x20 s.space_padding c in
      let signed = print_sign s c1 in
      let zeroes = s.padding - s.space_padding in
      print_fn_number_10_div-MayInside (dst_memset 0x30 zeroes signed.0) (s.wordlen - signed.1) (
        dst_memset-IsInside 0x30 zeroes signed.0
          (print_sign-IsInside s c1 (dst_memset-IsInside 0x20 s.space_padding c h)))

  prepared :
      (c : PrintfCtx) (neg : Bool)
      → IsInside m0 lo hi c
      → MayInside (print_fn_prep_spec c neg >>= print_fn_number_10 c)
  prepared c neg h =
      AllSome-bind (λ s. Unit) (IsInside m0 lo hi) (print_fn_prep_spec c neg) (print_fn_number_10 c)
        (anything (print_fn_prep_spec c neg)) (λ s u. print_fn_number_10-MayInside c s h)

  pub print_fn_number_10_u-MayInside :
      (c : PrintfCtx) → IsInside m0 lo hi c → MayInside (print_fn_number_10_u c)
  unfolding print_fn_number_10_u
  print_fn_number_10_u-MayInside c h =
      prepared (record c { arg = if is_no c.size then c.arg % 2 ^ 32 else c.arg }) false h

  take_sign-IsInside : (c : PrintfCtx) → IsInside m0 lo hi c → IsInside m0 lo hi (take_sign c).1
  unfolding take_sign
  take_sign-IsInside c h =
      if_cases (λ (r : Bool × PrintfCtx). IsInside m0 lo hi r.1)
        (c.arg % (2 * 2 ^ max_bit_pos c.size) / 2 ^ max_bit_pos c.size % 2 == 1) h h

  pub print_fn_number_10_d-MayInside :
      (c : PrintfCtx) → IsInside m0 lo hi c → MayInside (print_fn_number_10_d c)
  unfolding print_fn_number_10_d
  print_fn_number_10_d-MayInside c h =
      prepared (take_sign c).1 (take_sign c).0 (take_sign-IsInside c h)
