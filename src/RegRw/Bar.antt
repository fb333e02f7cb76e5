-- ===== src/RegRw/Bar.antt =====
-- What a run of reg_rw on a device of the driver does to the registers of the card.
use mathlib.Core.Path.{fun_ext}
use native.Mathlib.Nat.{div-add-mod'}
use xpcie.Base.{
  ℕ, ◌+◌, ◌-◌, ◌*◌, ◌/◌, ◌%◌, ◌^◌, ◌≤◌, ◌<◌, ◌≡◌, ap, ap₂, ◌∙◌, refl, Bool, true, false, none, some,
  List, [], ◌∷◌, length, get_or, ltb, if◌then◌else◌, Run, done, ◌>>=◌, arith,
}
use xpcie.Platform.{Platform, u32}
use xpcie.Mmap.{success, einval, eagain, Remap, bar_mmap, remapped, bar_pages, bar_mmap-in_range}
use xpcie.RegRw.{
  Host, Width, size_of, access_width, put, Ended, open_device, mmap, munmap, close, read_access,
  access_main,
}
use xpcie.RegRw.Bytes.{le_bytes, le_value-put-size_of, put-bytes}
use xpcie.RegRw.Access.{access_main-stored, access_main-read, read_access-shown}
use xpcie.RegRw.Device.{area_of, seen, stored_back, mapped_run, device_run}
use xpcie.RegRw.Stored.{stored_back-seen, stored_back-put, le_value-seen, length-le_bytes}

module _ (p : Platform) (h : Host) (map_size : ℕ) (pci_resource_start pci_resource_end : ℕ → ℕ)
    (io_remap_pfn_range : Remap → Bool) (bar virt : ℕ) (area : virt + map_size < 2 ^ 64)
    (resource : (pci_resource_start bar ≤ pci_resource_end bar)
      × (pci_resource_end bar + 1 < 2 ^ 64)) where
  open p use {page_size}

  abbrev run_on_bar : (argv : List (List ℕ)) → (phys : ℕ → ℕ) → Run (Ended × (ℕ → ℕ))
  run_on_bar =
      device_run p h map_size pci_resource_start pci_resource_end io_remap_pfn_range bar virt

  -- The pages of the BAR from its first on.
  abbrev pages : Remap
  pages =
      bar_pages p pci_resource_start pci_resource_end io_remap_pfn_range bar (area_of virt map_size)

  answered :
      (refused : Bool)
      → ltb (pci_resource_end bar + 1 - pci_resource_start bar) map_size ≡ refused
      → bar_mmap p pci_resource_start pci_resource_end io_remap_pfn_range bar
          (area_of virt map_size)
        ≡ (if refused
            then (einval, none)
            else (if io_remap_pfn_range pages then eagain else success, some pages))
  unfolding remapped
  answered refused test =
      let whole : 0 * page_size + (virt + map_size - virt) ≡ map_size = omega arith in
      let compared : ltb (pci_resource_end bar + 1 - pci_resource_start bar)
            (0 * page_size + (virt + map_size - virt))
          ≡ refused =
        ap (ltb (pci_resource_end bar + 1 - pci_resource_start bar)) whole ∙ test in
      bar_mmap-in_range p pci_resource_start pci_resource_end io_remap_pfn_range bar
        (area_of virt map_size) (omega arith, area) (resource.0, omega (arith, resource.1))
        (omega arith)
      ∙ ap
          (λ (b : Bool).
            if b
            then (einval, none)
            else remapped p pci_resource_start pci_resource_end io_remap_pfn_range pages)
          compared

  module _ (opens : h.open_succeeds ≡ true) (prog device address letter : List ℕ) where
    abbrev target : ℕ
    target = h.strtoul address

    abbrev width : Width
    width = access_width (h.tolower (get_or letter 0 0))

    -- When the device file can be opened and its BAR is smaller than the mapping that the program
    -- asks for, each run with an address and a type ends with 1 after the driver refused the
    -- mapping, and the registers are as they were.
    pub device_run-small :
        (more : List (List ℕ)) (phys : ℕ → ℕ)
        → pci_resource_end bar + 1 < pci_resource_start bar + map_size
        → run_on_bar (prog ∷ device ∷ address ∷ letter ∷ more) phys
          ≡ done (
            record {
              code = 1;
              shown = none;
              calls = open_device ∷ mmap map_size ∷ [];
              memory = phys;
            },
            phys,
          )
    unfolding device_run mapped_run access_main
    device_run-small more phys small =
        let few : ltb (length (prog ∷ device ∷ address ∷ letter ∷ more)) 3 ≡ false = ground arith in
        rw (answered true (ground arith)) (rw (few, opens) refl)

    module _ (unmaps : h.munmap_succeeds ≡ true) (accepts : io_remap_pfn_range pages ≡ false)
        (aligned : pci_resource_start bar % page_size ≡ 0)
        (fits : pci_resource_start bar + map_size ≤ pci_resource_end bar + 1)
        (inside : target + size_of width ≤ map_size) where
      first-start : pages.pfn * page_size ≡ pci_resource_start bar
      first-start =
          let whole : pci_resource_start bar / page_size + 0 ≡ pci_resource_start bar / page_size =
            omega arith in
          ap (λ k. k * page_size) whole
          ∙ omega (arith, aligned, div-add-mod' (pci_resource_start bar) page_size)

      granted :
          bar_mmap p pci_resource_start pci_resource_end io_remap_pfn_range bar
            (area_of virt map_size)
          ≡ (success, some pages)
      granted = answered false (ground arith) ∙ rw accepts refl

      -- A run is one on the memory from the start of the BAR.
      device_run-seen :
          (argv : List (List ℕ)) (phys : ℕ → ℕ) (ended : Ended)
          → access_main
              (record h { mmap_succeeds = true })
              map_size
              argv
              (seen (pci_resource_start bar) phys)
            ≡ done ended
          → run_on_bar argv phys
            ≡ done (ended, stored_back (pci_resource_start bar) map_size ended.memory phys)
      unfolding device_run mapped_run
      device_run-seen argv phys ended runs =
          let whole : virt + map_size - virt ≡ map_size = omega arith in
          ap (λ reply. mapped_run p h map_size reply argv phys) granted
          ∙ ap₂
              (λ first size.
                access_main (record h { mmap_succeeds = true }) map_size argv (seen first phys)
                >>= λ (e : Ended). done (e, stored_back first size e.memory phys))
              first-start whole
          ∙ ap
              (λ r. r >>= λ (e : Ended).
                done (e, stored_back (pci_resource_start bar) map_size e.memory phys))
              runs

      -- When the device file can be opened and released, the driver maps the BAR, which starts at a
      -- page and is as large as the mapping at least, and the access is within the mapping: a run
      -- with a value ends with 0 and stores the value, its lowest byte first, at that address from
      -- the start of the BAR, and changes no other byte of the physical memory; a run with the same
      -- address and type then reads the value there, modulo 2 to the width in bits, and changes
      -- nothing.
      pub device_run-roundtrip :
          (value : List ℕ) (more : List (List ℕ)) (phys : ℕ → ℕ)
          → ((j : ℕ) → phys j < 2 ^ 8)
          → let v = u32 (h.strtoul value) in
            let after = put (pci_resource_start bar + target) (le_bytes (size_of width) v) phys in
            (written : Ended) × (again : Ended) × (run_on_bar
                (prog ∷ device ∷ address ∷ letter ∷ value ∷ more)
                phys
              ≡ done (written, after))
            × (written.code ≡ 0)
            × (run_on_bar (prog ∷ device ∷ address ∷ letter ∷ []) after ≡ done (again, after))
            × (again.shown ≡ some (v % 2 ^ (8 * size_of width)))
      device_run-roundtrip value more phys bytes =
          let h' = record h { mmap_succeeds = true } in
          let v = u32 (h.strtoul value) in
          let first = pci_resource_start bar in
          let n = size_of width in
          let after = put (first + target) (le_bytes n v) phys in
          let written : Ended = record {
            code = 0;
            shown = none;
            calls = open_device ∷ mmap map_size ∷ munmap map_size ∷ close ∷ [];
            memory = put target (le_bytes n v) (seen first phys);
          } in
          let stores =
            access_main-stored h' map_size opens refl prog device address letter unmaps value more
              (seen first phys) inside in
          let reads =
            access_main-read h' map_size opens refl prog device address letter (seen first after)
              inside in
          let again = read_access h' map_size width target (seen first after) in
          let shown =
            read_access-shown h' map_size opens refl prog device address letter unmaps width target
              (seen first after) (λ j. put-bytes n (first + target) v phys bytes (first + j)) in
          (
            written,
            again,
            device_run-seen (prog ∷ device ∷ address ∷ letter ∷ value ∷ more) phys written stores
                ∙ ap (λ m. done (written, m))
                    (stored_back-put first map_size target (le_bytes n v) phys
                      (omega (arith, length-le_bytes n v, inside))),
            refl,
            device_run-seen (prog ∷ device ∷ address ∷ letter ∷ []) after again reads
                ∙ ap (λ m. done (again, m))
                    (ap (λ m. stored_back first map_size m after) (shown.1)
                      ∙ fun_ext (λ a. stored_back-seen first map_size a after)),
            shown.0
                ∙ ap some (
                    le_value-seen n first target after
                    ∙ le_value-put-size_of width (first + target) v phys),
          )
