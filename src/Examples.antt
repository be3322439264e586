-- ===== src/Examples.antt =====
-- Concrete runs, and each result at an input where its conditions hold.
mod Cron
mod Workers
mod Recurring
mod Submissions
mod Claims
mod Sessions
mod Repositories
mod Requests
mod Turns
mod Bodies
mod Queries
mod Applications
mod Deliveries
