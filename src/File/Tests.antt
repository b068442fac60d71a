-- ===== src/File/Tests.antt =====
-- Runs of the theorems on the table of open files.
use kus_operating_system_pro.File.{
  File, fd_inode, fd_none, filealloc, fileclose, free_file, last_closed, release_of, set_ref,
  take_file,
}
use kus_operating_system_pro.File.References.{
  IsVacant, Calls, none_open, occurrences, opens, references_counted, then_call,
}
use kus_operating_system_pro.Shared.{[], false, refl, true, update, ◌∷◌, ◌≡◌}

abbrev unused_file : File
unused_file = record {
  type' = fd_inode;
  ref = 0;
  readable = true;
  writable = false;
  pipe = 0;
  ip = 0x80009000;
  off = 0;
}

-- File 0 has been allocated.
opened : Calls (record { files = set_ref 0 1 (λ f. unused_file); handles = 0 ∷ [] })
unfolding filealloc take_file free_file
opened = then_call (none_open (λ f. unused_file) (λ f. refl)) (opens 0 refl)

references_counted_example :
    (fileclose 0 (set_ref 0 1 (λ f. unused_file))
      ≡ last_closed
          (update
            (set_ref 0 1 (λ f. unused_file))
            0
            (record unused_file { ref = 0; type' = fd_none }))
          (release_of (record unused_file { ref = 1 })))
    × IsVacant
        (record { files = set_ref 0 1 (λ f. unused_file); handles = 0 ∷ [] })
        (filealloc (set_ref 0 1 (λ f. unused_file)))
unfolding occurrences
references_counted_example = references_counted opened 0 [] [] refl
