-- ===== src/RotationLock.antt =====
-- `OrientationLockGuard` (src/main.cpp): the files that are silenced while the client runs.
pub mod Restored
pub mod Tests
use rmcast.Base.{
  ℕ, List, [], ◌∷◌, ◌++◌, Option, none, some, Bool, true, false, not, ◌&&◌, if◌then◌else◌, ◌==◌,
}
use rmcast.Base.Int.{ℤ, pos, negsuc, ltb_ℤ}

-- The files under their numbers: 0 to 3 are those of `iio_paths`, 4 that of the hall sensor. `number`
-- is what `fscanf` reads, if it reads one.
pub record Files : Type 0 where
  pub number : ℕ → Option ℤ
  pub is_writable : ℕ → Bool

abbrev pub iio_paths : List ℕ
iio_paths = 0 ∷ 1 ∷ 2 ∷ 3 ∷ []

abbrev pub hall : ℕ
hall = 4

unfoldable pub read_int : ℕ → Files → ℤ
read_int p f = elim (f.number p) [ none ↦ negsuc 0 | some v ↦ v ]

-- `write_int`, and whether it has worked.
unfoldable pub write_int : ℕ → ℤ → Files → Files × Bool
write_int p v f =
    if f.is_writable p
    then (record f { number = λ q. if q == p then some v else f.number q }, true)
    else (f, false)

pub record Guard : Type 0 where
  pub saved_iio : List (ℕ × ℤ)
  pub saved_hall : ℤ
  pub hall_engaged : Bool

-- The loop over `iio_paths`.
unfoldable pub silence : List ℕ → Files → Files × List (ℕ × ℤ)
silence [] f = (f, [])
silence (p ∷ ps) f =
    let prior = read_int p f in
    let (g, written) = write_int p (pos 0) f in
    let (h, saved) = silence ps g in (h, if written then (p, prior) ∷ saved else saved)

-- The hall sensor: `write_int` is tried only if there is a value to restore.
unfoldable pub inhibit_hall : Files → List (ℕ × ℤ) → Files × Guard
inhibit_hall g saved =
    let prior = read_int hall g in
    let (h, written) = write_int hall (pos 1) g in
    if not (ltb_ℤ prior (pos 0)) && written
    then (h, record { saved_iio = saved; saved_hall = prior; hall_engaged = true })
    else (g, record { saved_iio = saved; saved_hall = pos 0; hall_engaged = false })

-- The constructor.
unfoldable pub lock : Files → Files × Guard
lock f = let (g, saved) = silence iio_paths f in inhibit_hall g saved

-- The loop of `restore`.
unfoldable pub write_back : List (ℕ × ℤ) → Files → Files
write_back [] f = f
write_back ((p, prior) ∷ saved) f =
    write_back saved (if ltb_ℤ prior (pos 0) then f else (write_int p prior f).0)

-- `restore`, which the destructor and the signal handlers call.
unfoldable pub restore : Files × Guard → Files × Guard
restore (f, g) =
    let h = write_back g.saved_iio f in
    if g.hall_engaged
    then ((write_int hall g.saved_hall h).0, record g { saved_iio = []; hall_engaged = false })
    else (h, record g { saved_iio = [] })
