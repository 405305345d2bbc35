-- ===== src/Common/Files.antt =====
-- The open file descriptors of a process.
use irc.Common.{ℕ, Bool, true, false, ◌≡◌, refl, ap, List, [], ◌∷◌, any, arith, ◌==◌, if◌then◌else◌}

abbrev pub is_open : ℕ → List ℕ → Bool
is_open fd files = any (λ g. g == fd) files

-- close()
unfoldable pub close : ℕ → List ℕ → List ℕ
close fd [] = []
close fd (g ∷ files) = let rest = close fd files in if g == fd then rest else g ∷ rest

-- What is not open is not closed.
pub close-absent : (fd : ℕ) (files : List ℕ) → is_open fd files ≡ false → close fd files ≡ files
unfolding close
close-absent fd [] h = refl
close-absent fd (g ∷ files) h =
    let other : (g == fd) ≡ false = ground (arith, h) in
    rw (if◌then◌else◌, other) (ap (λ fs. g ∷ fs) (close-absent fd files (ground (arith, h))))

-- A descriptor that is opened and closed leaves the others open.
pub close-opened :
    (fd : ℕ) (files : List ℕ) → is_open fd files ≡ false → close fd (fd ∷ files) ≡ files
unfolding close
close-opened fd files h =
    let same : (fd == fd) ≡ true = ground arith in
    rw (if◌then◌else◌, same) (close-absent fd files h)
