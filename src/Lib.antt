-- ===== src/Lib.antt =====
-- Resin-Compute: the forecasting and planning core of a desktop companion for a gacha game. The program
-- keeps an append-only ledger of currencies and a wish-pity state, and answers what a wallet can reach:
-- how resin regenerates, when domains open and reset, on which day each node of an upgrade path can be
-- done, and with what chance a wish target is met.
--
-- How the parts stand together. The record types of core/types.py are shared by all. The ledger
-- (core/ledger.py) folds entries into balances and feeds the forecasts; core/resin.py and core/domains.py
-- give the budgets and gates of a day; engines/objectives.py decomposes a build goal into nodes, orders them
-- and finds what one of them needs; engines/scheduler.py places the nodes of a path by those gates;
-- agents/pity_engine builds a banner's hazard table (banners.py), runs an absorbing Markov chain on it
-- (markov.py), answers how likely a target is and how many pulls it needs from the curve (forecast.py), and
-- by which day of a schedule (timeline.py). The worker (headless) runs its jobs in the order of what they
-- depend on, and one of them plans every goal.
--
-- Where it is modelled, by path from the repository's root:
-- - Base: numbers, lists and Python's signed integers; Base/Int holds `//` and `%` on them.
-- - Clock: naive and aware datetimes, in whole microseconds, and `_as_utc`.
-- - Types: the records of core/types.py.
-- - Resin: core/resin.py, under the source's names.
-- - Domains: core/domains.py. `advance` is the while loop of `weekly_boss_reset`; two rounds of fuel are
--   enough, since its result is shown to be later than the clock.
-- - Ledger: core/ledger.py. `record` is `record_entry`; a method returns the new ledger, and its
--   ValueError is `none`. `project_balance`, a floor of a floating-point product, is not modelled.
-- - Scheduler/Probe and Scheduler/Solve: engines/scheduler.py. `verdict` is what the body of the probing
--   loop decides on a day, `search_day` that loop, on the days left up to the horizon, `place_all` the loop
--   over the path.
-- - Gacha/Banners: agents/pity_engine/banners.py. A hazard counts thousandths and a branch chance
--   hundred-thousandths, so every constant of the source is exact.
-- - Gacha/Markov and Gacha/Solve: agents/pity_engine/markov.py. The grid after t pulls counts parts of
--   `unit ^ t`, so probabilities are exact; the source's rounding errors are not modelled. The loops of one
--   pull are a list of writes in their order, and a write outside the grid is an IndexError. The loop over
--   the pulls has `max_steps` as its fuel, which is its own bound.
-- - Gacha/Expected: the expected wishes for each 5-star of markov.py, as a fraction.
-- - Gacha/Forecast: agents/pity_engine/forecast.py, with a confidence as a fraction.
-- - Gacha/Timeline: agents/pity_engine/timeline.py. A date is its ordinal and the rate of pulls a fraction,
--   so its floor is exact, and what a float cannot hold is the ValueError of the source; the loops over
--   windows and days recur on the list and on the days that are left.
-- - Objectives: the gate arithmetic of engines/objectives.py, with levels as any integers.
-- - Objectives/Graph and Objectives/Path: the node graph of engines/objectives.py. A dictionary of nodes is
--   their list in the order of insertion, a heap of ids its sorted list, a set a list. `kahn` is the loop of
--   `topological_order`, on as many rounds as there are nodes, since each round places one; `walk` is the
--   loop over a stack of `_closure` and `transitive_dependents`, on one round for each id on the stack and
--   for each edge.
-- - Objectives/Cycle: `_find_cycle` of engines/objectives.py. The colours are read off the stack, which is the
--   path, and the list of the ids that are done; a descent has one round for each id and for each edge.
-- - Objectives/Build and Objectives/Expand: the goal expansion of engines/objectives.py, with Python's text of
--   an integer as an argument of the ids. The loops over phases and levels recur on what is left.
-- - Headless/Jobs: the registry of headless/jobs.py and `ordered_jobs`, whose loop has one round for each job.
-- - Headless/Quarantine: `apply_result` of headless/quarantine.py; its record is read and written as a file,
--   which is outside.
-- - Headless/Plans: `_solve_goal_paths` of headless/jobs.py, which joins the graph and the scheduler.
--
-- Not modelled: logging, uuids and the system clock (arguments of the model), floating-point rounding,
-- the recommender of engines, the file and process plumbing of core and headless, and ingest, surface,
-- shell, ops, tools and scripts.
pub mod Base
pub mod Clock
pub mod Types
pub mod Ledger
pub mod Resin
pub mod Domains
pub mod Objectives
pub mod Scheduler
pub mod Headless
pub mod Gacha
