-- ===== src/Service.antt =====
-- app/services/job_service.py, function by function. A function that commits once is one step on the
-- table; where a function works on the table and on the ready queue, both are its state. Logging
-- writes no state and is left out. `now` is the clock that the statement reads.
pub mod Claim
pub mod Owner
pub mod Sweep
pub mod Create
pub mod Mutate
pub mod Query
