-- ===== src/Dir/Tests.antt =====
-- Runs of the theorems on path names.
use kus_operating_system_pro.Itable.{iget, ◌>>=◌}
use kus_operating_system_pro.Dir.{namex}
use kus_operating_system_pro.Shared.{List, [], true, ℕ, ◌∷◌, ◌≡◌}
use kus_operating_system_pro.Dir.Paths.{elements}
use kus_operating_system_pro.Dir.Walk.{namex-walk, walk}
use kus_operating_system_pro.Fs.{Superblock}

abbrev small : Superblock
small = record { size = 16; ninodes = 8; inodestart = 1; bmapstart = 2 }

-- "/a//b".
abbrev path : List ℕ
path = 47 ∷ 97 ∷ 47 ∷ 47 ∷ 98 ∷ []

namex-walk_example :
    namex small 3 path true ≡ ((λ s. iget 1 1 s) >>= λ ip. walk small true ip (elements path))
namex-walk_example = namex-walk small 3 path true
