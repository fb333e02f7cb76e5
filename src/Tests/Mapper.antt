-- ===== src/Tests/Mapper.antt =====
-- A buffer of 10000 bytes at address 4090: four pages, the first with its last 6 bytes.
use xpcie.Base.{
  ◌≤◌, ◌≡◌, refl, true, false, some, List, [], ◌∷◌, length, take, replicate, done, bug, arith,
}
use xpcie.Kernel.{Sg, empty_sg, get_page, put_page, dirty_page, free_mapper, pinned}
use xpcie.Mapper.{
  Mapper, enomem, Got, sg_create_mapper, nr_pages, fill_sgl, stored, sgm_get_user_pages,
  sgm_put_user_pages, sg_destroy_mapper,
}
use xpcie.Mapper.Pages.{sg_create_mapper-nr_pages}
use xpcie.Mapper.Bytes.{fill_sgl_lem}
use xpcie.Mapper.Paged.{sg_bytes, paged}
use xpcie.Mapper.Release.{sgm_put_user_pages_lem}
use xpcie.Mapper.Pin.{HasRoom, MappedAll, sgm_get_user_pages-all, sgm_get_user_pages-partial}
use xpcie.Base.{ℕ, Bool, ◌+◌, ◌/◌, ◌≤◌}
use xpcie.Tests.World.{machine, scatter, all_memory}

abbrev fresh : Mapper
fresh = record {
  sgl = replicate 4 empty_sg;
  pages = 0 ∷ 0 ∷ 0 ∷ 0 ∷ [];
  max_pages = 4;
  mapped_pages = 0;
}

fresh-HasRoom : HasRoom machine fresh 4090 10000
fresh-HasRoom = record { room_pages = omega arith; room_sgl = omega arith; unmapped = refl }

sg_create_mapper-nr_pages_example :
    (sgm : Mapper) × (sg_create_mapper machine scatter all_memory 10000 ≡ some sgm)
    × (length sgm.pages ≡ sgm.max_pages)
    × (length sgm.sgl ≡ sgm.max_pages)
    × (sgm.mapped_pages ≡ 0)
    × (nr_pages machine 4090 10000 ≤ sgm.max_pages)
sg_create_mapper-nr_pages_example =
    sg_create_mapper-nr_pages machine scatter all_memory 4090 10000 (omega arith) (omega arith)
      (omega arith) (refl, refl, refl)

fill_sgl_lem_example :
    (out : List Sg) × (fill_sgl machine scatter 4090 10000 4
        (5 ∷ 9 ∷ 2 ∷ 7 ∷ [])
        (replicate 4 empty_sg)
      ≡ done out)
    × (length out ≡ 4)
    × (sg_bytes (take 4 out) ≡ paged machine (5 ∷ 9 ∷ 2 ∷ 7 ∷ []) 4090 10000)
fill_sgl_lem_example =
    fill_sgl_lem machine scatter 4090 10000 (5 ∷ 9 ∷ 2 ∷ 7 ∷ []) (replicate 4 empty_sg)
      (omega arith) (omega arith) (omega arith) (omega arith)

sgm_get_user_pages-all_example :
    (out : Got) × (sgm_get_user_pages machine scatter
        (λ start n write. pinned (5 ∷ 9 ∷ 2 ∷ 7 ∷ []))
        fresh
        4090
        10000
        true
      ≡ done out)
    × MappedAll machine scatter fresh 4090 10000
        (5 ∷ 9 ∷ 2 ∷ 7 ∷ [])
        (get_page 5 ∷ get_page 9 ∷ get_page 2 ∷ get_page 7 ∷ [])
        out
sgm_get_user_pages-all_example =
    sgm_get_user_pages-all machine scatter (λ start n write. pinned (5 ∷ 9 ∷ 2 ∷ 7 ∷ [])) fresh 4090
      10000 true (omega arith) (omega arith) (omega arith) fresh-HasRoom (5 ∷ 9 ∷ 2 ∷ 7 ∷ []) refl
      refl

sgm_get_user_pages-partial_example :
    (out : Got) × (sgm_get_user_pages machine scatter
        (λ start n write. pinned (5 ∷ 9 ∷ []))
        fresh
        4090
        10000
        true
      ≡ done out)
    × (out.rc ≡ enomem)
    × (out.sgm.mapped_pages ≡ 0)
    × (out.events ≡ get_page 5 ∷ get_page 9 ∷ put_page 5 ∷ put_page 9 ∷ [])
unfolding stored
sgm_get_user_pages-partial_example =
    sgm_get_user_pages-partial machine scatter (λ start n write. pinned (5 ∷ 9 ∷ [])) fresh 4090
      10000 true (omega arith) (omega arith) (omega arith) fresh-HasRoom (pinned (5 ∷ 9 ∷ [])) refl
      (omega arith)

abbrev two_mapped : Mapper
two_mapped = record fresh { pages = 5 ∷ 9 ∷ 0 ∷ 0 ∷ []; mapped_pages = 2 }

sgm_put_user_pages_lem_example :
    (sgm_put_user_pages two_mapped false
      ≡ done (
        record two_mapped { mapped_pages = 0 },
        dirty_page 5 ∷ dirty_page 9 ∷ put_page 5 ∷ put_page 9 ∷ [],
      ))
    × (sg_destroy_mapper (record two_mapped { mapped_pages = 0 }) ≡ done (free_mapper ∷ []))
    × (sg_destroy_mapper two_mapped ≡ bug)
sgm_put_user_pages_lem_example =
    sgm_put_user_pages_lem two_mapped (5 ∷ 9 ∷ []) (0 ∷ 0 ∷ []) false refl refl

abbrev to_page : ℕ → ℕ
to_page virt = virt / 4096 + 100

abbrev low_mem : ℕ → Bool
low_mem page = false
