-- ===== src/SyncApps/Tests.antt =====
-- Runs of the programs with arguments of both kinds.
use embedded_system_software.Base.{◌≡◌, refl, [], ◌∷◌, pos, minus_one}
use embedded_system_software.SyncApps.{
  rwlock_main, rculist_main, iterate, reads, writes, usage, invalid_operation,
}

two_reads :
    rwlock_main 3 (pos 1) (pos 2) (pos 3)
    ≡ record { code = pos 0; printed = []; calls = reads ∷ reads ∷ [] }
unfolding rwlock_main iterate
two_reads = refl

-- An operation that is neither stops the program in its first pass, and is not noticed when there is none.
invalid-stops :
    rwlock_main 3 (pos 7) (pos 2) (pos 3)
    ≡ record { code = minus_one; printed = invalid_operation ∷ []; calls = [] }
unfolding rwlock_main iterate
invalid-stops = refl

invalid-unnoticed : (rwlock_main 3 (pos 7) (pos 0) (pos 3)).code ≡ pos 0
unfolding rwlock_main iterate
invalid-unnoticed = refl

no_arguments : (rculist_main 1 (pos 1) 5 (pos 3)).printed ≡ usage ∷ []
unfolding rculist_main
no_arguments = refl

one_update : (rculist_main 3 (pos 2) 5 (pos 3)).calls ≡ writes 5 ∷ []
unfolding rculist_main
one_update = refl
