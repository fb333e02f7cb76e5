-- ===== src/LogStream/Line.antt =====
-- What a statement on a `NewLine` prints.
use xpcie.Base.{
  ◌≡◌, ap, ◌∙◌, sym, refl, Bool, true, false, Option, none, some, List, [], ◌∷◌, ◌++◌, length, Run,
  done, oops, ◌>>=◌, update_at, if◌then◌else◌, append-nil, append_assoc, bug,
}
use xpcie.LogStream.{Text, Log, appended, append, read_at, destroy, new_line, append_all, statement}

abbrev joined : List Text → Text
joined [] = []
joined (t ∷ texts) = t ++ joined texts

-- The last buffer.
read_at-last :
    (buffers : List (Option Text)) (b : Option Text)
    → read_at (buffers ++ (b ∷ [])) (length buffers) ≡ b
read_at-last [] b = refl
read_at-last (x ∷ buffers) b = read_at-last buffers b

then_cons :
    (x : Option Text) (buffers : List (Option Text)) (r : Run (Option Text))
    → ((r >>= λ b. done (buffers ++ (b ∷ []))) >>= λ ys. done (x ∷ ys))
      ≡ (r >>= λ b. done (x ∷ (buffers ++ (b ∷ []))))
then_cons x buffers (done b) = refl
then_cons x buffers bug = refl
then_cons x buffers oops = refl

update_at-last :
    (buffers : List (Option Text)) (b : Option Text) (f : Option Text → Run (Option Text))
    → update_at (buffers ++ (b ∷ [])) (length buffers) f
      ≡ (f b >>= λ b'. done (buffers ++ (b' ∷ [])))
update_at-last [] b f = refl
update_at-last (x ∷ buffers) b f =
    ap (λ r. r >>= λ ys. done (x ∷ ys)) (update_at-last buffers b f) ∙ then_cons x buffers (f b)

module _ (buffers : List (Option Text)) (printed : Text) where
  -- The log with a last buffer.
  abbrev with_last : Option Text → Log
  with_last b = record { buffers = buffers ++ (b ∷ []); printed = printed }

  append-last :
      (s t : Text)
      → append (length buffers) t (with_last (some s)) ≡ done (with_last (some (s ++ t)))
  unfolding append
  append-last s t = rw (update_at-last buffers (some s) (appended t)) refl

  append-gone : (t : Text) → append (length buffers) t (with_last none) ≡ oops
  unfolding append
  append-gone t = rw (update_at-last buffers none (appended t)) refl

  destroy-last :
      (s : Text)
      → destroy (length buffers) (with_last (some s))
        ≡ done
            (record { buffers = buffers ++ (none ∷ []); printed = printed ++ (s ++ (0x0a ∷ [])) })
  unfolding destroy
  destroy-last s =
      rw (read_at-last buffers (some s))
        (rw (update_at-last buffers (some s) (λ b. done none)) refl)

  destroy-gone : destroy (length buffers) (with_last none) ≡ oops
  unfolding destroy
  destroy-gone = rw (read_at-last buffers none) refl

  append_all-last :
      (s : Text) (texts : List Text)
      → append_all (length buffers) texts (with_last (some s))
        ≡ done (with_last (some (s ++ joined texts)))
  unfolding append_all
  append_all-last s [] = ap (λ u. done (with_last (some u))) (sym (append-nil s))
  append_all-last s (t ∷ texts) = rw (append-last s t) (
      append_all-last (s ++ t) texts
      ∙ ap (λ u. done (with_last (some u))) (append_assoc s t (joined texts)))

-- A statement on a `NewLine` whose copy is elided prints its texts, one after the other, and one end
-- of line, and leaves its buffer deleted and the others as they were. If the copy is not elided, the
-- buffer is deleted before the statement goes on, which then accesses it.
pub statement_lem :
    (elided : Bool) (first : Text) (texts : List Text) (log : Log)
    → statement elided first texts log ≡ (
        if elided
        then done (record {
          buffers = log.buffers ++ (none ∷ []);
          printed = log.printed ++ ((first ++ joined texts) ++ (0x0a ∷ []));
        })
        else oops)
unfolding statement new_line append_all
statement_lem true first texts log =
    rw (append_all-last log.buffers log.printed first texts)
      (destroy-last log.buffers log.printed (first ++ joined texts))
statement_lem false first [] log =
    rw (destroy-last log.buffers log.printed first) (destroy-gone log.buffers _)
statement_lem false first (t ∷ texts) log =
    rw (destroy-last log.buffers log.printed first)
      (rw (append-gone log.buffers (log.printed ++ (first ++ (0x0a ∷ []))) t) refl)
