-- ===== src/RegRw/Access.antt =====
-- What a run of reg_rw does: a write, and reading back what it wrote.
use xpcie.Base.{
  ℕ, ◌+◌, ◌*◌, ◌%◌, ◌^◌, ◌≤◌, ◌<◌, ◌≡◌, ap, ◌∙◌, ◌⊎◌, refl, Bool, true, false, Option, none, some,
  List, [], ◌∷◌, length, get_or, ltb, leb, if◌then◌else◌, done, arith,
}
use xpcie.Platform.{u32}
use xpcie.RegRw.{
  Host, Width, byte, half, word, size_of, access_width, put, host_bytes, load, ltoh, Call,
  open_device, mmap, munmap, close, Ended, unmap, read_access, write_access, access_main,
}
use xpcie.RegRw.Bytes.{
  le_value, le_bytes, load-le_value, store-le_bytes, le_value-put-size_of, put-outside, put-bytes,
}

-- Whether a width is a word.
abbrev is_word : Width → Bool
is_word word = true
is_word w = false

module _ (h : Host) (map_size : ℕ) (opens : h.open_succeeds ≡ true) (maps : h.mmap_succeeds ≡ true)
    (prog device address letter : List ℕ) where
  open h use {strtoul, tolower, big_endian}

  abbrev target : ℕ
  target = strtoul address

  abbrev width : Width
  width = access_width (tolower (get_or letter 0 0))

  access_main-write :
      (value : List ℕ) (more : List (List ℕ)) (memory : ℕ → ℕ)
      → target + size_of width ≤ map_size
      → access_main h map_size (prog ∷ device ∷ address ∷ letter ∷ value ∷ more) memory
        ≡ done (write_access h map_size width target (u32 (strtoul value)) memory)
  unfolding access_main
  access_main-write value more memory inside =
      let few : ltb (length (prog ∷ device ∷ address ∷ letter ∷ value ∷ more)) 3 ≡ false =
        ground arith in
      let typed : leb 4 (length (prog ∷ device ∷ address ∷ letter ∷ value ∷ more)) ≡ true =
        ground arith in
      let write : leb (length (prog ∷ device ∷ address ∷ letter ∷ value ∷ more)) 4 ≡ false =
        ground arith in
      let fits : leb (target + size_of width) map_size ≡ true = ground arith in
      rw (few, opens, maps, typed, fits, write) refl

  pub access_main-read :
      (memory : ℕ → ℕ)
      → target + size_of width ≤ map_size
      → access_main h map_size (prog ∷ device ∷ address ∷ letter ∷ []) memory
        ≡ done (read_access h map_size width target memory)
  unfolding access_main
  access_main-read memory inside =
      let fits : leb (target + size_of width) map_size ≡ true = ground arith in
      rw (opens, maps, fits) refl

  module _ (unmaps : h.munmap_succeeds ≡ true) where
    abbrev all_calls : List Call
    all_calls = open_device ∷ mmap map_size ∷ munmap map_size ∷ close ∷ []

    unmap_lem :
        (shown : Option ℕ) (memory : ℕ → ℕ)
        → unmap h map_size shown memory
          ≡ (record { code = 0; shown = shown; calls = all_calls; memory = memory })
    unfolding unmap
    unmap_lem shown memory = simp unmaps refl

    pub read_access-shown :
        (w : Width) (a : ℕ) (memory : ℕ → ℕ)
        → ((j : ℕ) → memory j < 2 ^ 8)
        → let v = le_value (size_of w) memory a in
          let out = read_access h map_size w a memory in
          (out.shown ≡ some v)
          × (out.memory ≡ memory)
          × (out.code ≡ (if is_word w then v else 0))
          × (out.calls ≡ (if is_word w then open_device ∷ mmap map_size ∷ [] else all_calls))
    unfolding read_access
    read_access-shown byte a memory bytes =
        let e = unmap_lem (some (ltoh h byte (load big_endian byte memory a))) memory in
        (
          ap (λ o. o.shown) e ∙ ap some (load-le_value h memory bytes byte a),
          ap (λ o. o.memory) e,
          ap (λ o. o.code) e,
          ap (λ o. o.calls) e,
        )
    read_access-shown half a memory bytes =
        let e = unmap_lem (some (ltoh h half (load big_endian half memory a))) memory in
        (
          ap (λ o. o.shown) e ∙ ap some (load-le_value h memory bytes half a),
          ap (λ o. o.memory) e,
          ap (λ o. o.code) e,
          ap (λ o. o.calls) e,
        )
    read_access-shown word a memory bytes = (
      ap some (load-le_value h memory bytes word a),
      refl,
      load-le_value h memory bytes word a,
      refl,
    )

    -- A run with a value, within the mapping.
    pub access_main-stored :
        (value : List ℕ) (more : List (List ℕ)) (memory : ℕ → ℕ)
        → target + size_of width ≤ map_size
        → access_main h map_size (prog ∷ device ∷ address ∷ letter ∷ value ∷ more) memory
          ≡ done (record {
            code = 0;
            shown = none;
            calls = all_calls;
            memory = put target (le_bytes (size_of width) (u32 (strtoul value))) memory;
          })
    unfolding write_access
    access_main-stored value more memory inside =
        let v = u32 (strtoul value) in
        access_main-write value more memory inside
        ∙ ap done (
            unmap_lem none (put target (host_bytes big_endian width (ltoh h width v)) memory)
            ∙ ap
                (λ b. record {
                  code = 0;
                  shown = none;
                  calls = all_calls;
                  memory = put target b memory;
                })
                (store-le_bytes h width v (omega arith)))

    -- When the calls of the C library succeed and the access is within the mapping of bytes, a run
    -- with a value ends with 0, releases what it took, and changes no byte outside the access; a
    -- run that reads the same address with the same type then shows that value, modulo 2 to the
    -- width in bits, and changes nothing, whatever the byte order of the host. Of a word the second
    -- run returns the value and leaves the mapping and the file open; else it returns 0 and
    -- releases them.
    pub access_main-roundtrip :
        (value : List ℕ) (more : List (List ℕ)) (memory : ℕ → ℕ)
        → target + size_of width ≤ map_size
        → ((j : ℕ) → memory j < 2 ^ 8)
        → (written : Ended) × (again : Ended) × (access_main h map_size
              (prog ∷ device ∷ address ∷ letter ∷ value ∷ more)
              memory
            ≡ done written)
          × (written.code ≡ 0)
          × (written.calls ≡ all_calls)
          × ((j : ℕ) → (j < target) ⊎ (target + size_of width ≤ j) → written.memory j ≡ memory j)
          × (access_main h map_size (prog ∷ device ∷ address ∷ letter ∷ []) written.memory
              ≡ done again)
          × (again.shown ≡ some (u32 (strtoul value) % 2 ^ (8 * size_of width)))
          × (again.memory ≡ written.memory)
          × (again.code
              ≡ (if is_word width then u32 (strtoul value) % 2 ^ (8 * size_of width) else 0))
          × (again.calls ≡ (if is_word width then open_device ∷ mmap map_size ∷ [] else all_calls))
    access_main-roundtrip value more memory inside bytes =
        let v = u32 (strtoul value) in
        let after = put target (le_bytes (size_of width) v) memory in
        let written : Ended = record {
          code = 0;
          shown = none;
          calls = all_calls;
          memory = after;
        } in
        let again = read_access h map_size width target after in
        let read =
          read_access-shown width target after (put-bytes (size_of width) target v memory bytes) in
        let back = le_value-put-size_of width target v memory in
        (
          written,
          again,
          access_main-stored value more memory inside,
          refl,
          refl,
          λ j out. put-outside (size_of width) target v j memory out,
          access_main-read after inside,
          read.0 ∙ ap some back,
          read.1,
          read.2 ∙ ap (λ k. if is_word width then k else 0) back,
          read.3,
        )
