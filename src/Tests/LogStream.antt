-- ===== src/Tests/LogStream.antt =====
-- The statement `globalNewLineObject << "a" << "b";` on an empty log.
use xpcie.Base.{◌≡◌, refl, true, false, none, [], ◌∷◌, done, oops}
use xpcie.LogStream.{Log, statement, new_line, append_all, append, destroy}
use xpcie.LogStream.Line.{statement_lem}

abbrev empty : Log
empty = record { buffers = []; printed = [] }

statement_lem_example :
    statement true (0x61 ∷ []) ((0x62 ∷ []) ∷ []) empty
    ≡ done (record { buffers = none ∷ []; printed = 0x61 ∷ 0x62 ∷ 0x0a ∷ [] })
statement_lem_example = statement_lem true (0x61 ∷ []) ((0x62 ∷ []) ∷ []) empty

copied : statement false (0x61 ∷ []) ((0x62 ∷ []) ∷ []) empty ≡ oops
unfolding statement new_line append_all append destroy
copied = refl
