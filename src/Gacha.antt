-- ===== src/Gacha.antt =====
-- agents/pity_engine: the wish forecaster. The source computes in floats. Every constant of it is a
-- decimal fraction, so the model computes exactly: a hazard counts thousandths, a branch probability
-- counts hundred-thousandths, and a probability after t pulls counts parts of `unit ^ t`.
pub mod Banners
pub mod Markov
pub mod Solve
pub mod Forecast
pub mod Timeline
pub mod Expected
mod Tests
