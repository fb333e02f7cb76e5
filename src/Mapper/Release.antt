-- ===== src/Mapper/Release.antt =====
-- Releasing pinned pages: the exit `out_unmap` of `sgm_get_user_pages`, and `sgm_put_user_pages`.
use xpcie.Base.{
  ℕ, ◌≡◌, refl, true, false, Bool, List, [], ◌∷◌, ◌++◌, map, length, ltb, ◌==◌, done, bug, bug_on,
  ◌>>◌, arith, if◌then◌else◌,
}
use xpcie.Kernel.{Event, get_page, put_page, dirty_page, free_mapper}
use xpcie.Mapper.{
  Mapper, enomem, each_page, out_unmap, sgm_dirty_pages, sgm_put_user_pages, sg_destroy_mapper,
}

-- A call on each page of a prefix.
pub each_page-prefix :
    (call : ℕ → Event) (news rest : List ℕ)
    → each_page call (length news) (news ++ rest) ≡ done (map call news)
unfolding each_page
each_page-prefix call [] rest = refl
each_page-prefix call (new ∷ news) rest = rw (each_page-prefix call news rest) refl

-- Not all pages are there: those that were pinned are released.
pub out_unmap_lem :
    (sgm : Mapper) (news rest : List ℕ)
    → sgm.pages ≡ news ++ rest
    → sgm.mapped_pages ≡ length news
    → out_unmap sgm (map get_page news)
      ≡ done (record {
        rc = enomem;
        sgm = record sgm { mapped_pages = 0 };
        events = map get_page news ++ map put_page news;
      })
unfolding out_unmap
out_unmap_lem sgm news rest split mapped =
    rw (split, mapped, each_page-prefix put_page news rest) refl

destroyed :
    (n : ℕ)
    → (bug_on (ltb 0 n) >> done (free_mapper ∷ []))
      ≡ (if 0 == n then done (free_mapper ∷ []) else bug)
destroyed n = ground arith

-- After a call that mapped the pages `news`, `sgm_put_user_pages` releases each of them once, in
-- order, after marking it dirty if the device wrote to it, and leaves a mapper that
-- `sg_destroy_mapper` accepts; of a mapper with a mapped page that function ends in its BUG_ON.
pub sgm_put_user_pages_lem :
    (sgm : Mapper) (news rest : List ℕ) (dir_to_dev : Bool)
    → sgm.pages ≡ news ++ rest
    → sgm.mapped_pages ≡ length news
    → let sgm' = record sgm { mapped_pages = 0 } in
      (sgm_put_user_pages sgm dir_to_dev
        ≡ done (sgm', (if dir_to_dev then [] else map dirty_page news) ++ map put_page news))
      × (sg_destroy_mapper sgm' ≡ done (free_mapper ∷ []))
      × (sg_destroy_mapper sgm ≡ (if 0 == length news then done (free_mapper ∷ []) else bug))
unfolding sgm_put_user_pages sgm_dirty_pages sg_destroy_mapper
sgm_put_user_pages_lem sgm news rest true split mapped = (
  rw (split, mapped, each_page-prefix put_page news rest) refl,
  refl,
  rw mapped (destroyed (length news)),
)
sgm_put_user_pages_lem sgm news rest false split mapped = (
  rw (split, mapped, each_page-prefix put_page news rest, each_page-prefix dirty_page news rest)
      refl,
  refl,
  rw mapped (destroyed (length news)),
)
