-- ===== src/Gacha/Banners/Radiance.antt =====
-- The long-run rate of Capturing Radiance, agents/pity_engine/banners.py.
use resin_compute.Base.{
  ℕ, zero, suc, ◌+◌, ◌-◌, ◌*◌, ◌^◌, ◌≤◌, ◌<◌, ◌≡◌, refl, sym, true, false, some, arith, leb,
}
use native.Mathlib.Nat.{pow-suc, pow-zero}
use mathlib.Core.Path.{subst}
use resin_compute.Gacha.Banners.{sure, radiance_rounds, capturing_radiance_long_run_rate}

-- The expected number of rolls up to a win, as the chances that a run of losses goes on: the sum over
-- the losses j below the count of `q ^ j`, in parts of `scale ^ count`.
abbrev pub runs : (scale q count : ℕ) → ℕ
runs scale q zero = 0
runs scale q (suc count) = scale * (runs scale q count + q ^ count)

spread : (p q e l s : ℕ) → e * (p + q) + suc l * s * p + suc l * (s * q) ≡ (p + q) * (e + l * s + s)
spread p q e l s = omega arith

gather : (w e l s : ℕ) → e * w + suc l * s * w ≡ w * (e + l * s + s)
gather w e l s = omega arith

rounds_lem :
    (p q cap left losses expected survival : ℕ)
    → losses + left ≡ cap
    → survival ≡ q ^ losses
    → expected + losses * survival ≡ runs (p + q) q losses
    → radiance_rounds (p + q) p cap (suc left) losses expected survival ≡ runs (p + q) q (suc cap)
unfolding radiance_rounds
rounds_lem p q cap zero losses expected survival e s r =
    let forced : leb cap losses ≡ true = ground arith in
    let same : cap ≡ losses = omega arith in
    rw forced (rw same (cc (gather (p + q) expected losses survival)))
rounds_lem p q cap (suc left) losses expected survival e s r =
    let free : leb cap losses ≡ false = ground arith in
    let lost : p + q - p ≡ q = omega arith in
    rw (free, lost)
      (rounds_lem p q cap left (suc losses) (expected * (p + q) + suc losses * survival * p)
        (survival * q) (omega arith) (cc (pow-suc q losses))
        (cc (spread p q expected losses survival)))

-- For a win probability in (0, 1] the rate is the reciprocal of the expected number of rolls up to a
-- win: with q the chance of a loss, that number is 1 + q + … + q^cap, one roll for each run of at most
-- `cap` losses that can come before it.
pub capturing_radiance_rate :
    (p cap : ℕ)
    → 0 < p
    → p ≤ sure
    → capturing_radiance_long_run_rate p cap ≡ some (sure ^ suc cap, runs sure (sure - p) (suc cap))
unfolding capturing_radiance_long_run_rate
capturing_radiance_rate p cap h k =
    let whole : p + (sure - p) ≡ sure = omega arith in
    let total : radiance_rounds sure p cap (suc cap) 0 0 1 ≡ runs sure (sure - p) (suc cap) =
      subst (λ w. radiance_rounds w p cap (suc cap) 0 0 1 ≡ runs w (sure - p) (suc cap)) whole
        (rounds_lem p (sure - p) cap cap 0 0 1 (omega arith) (sym (pow-zero (sure - p))) refl) in
    ground (arith, total)
