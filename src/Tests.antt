-- ===== src/Tests.antt =====
-- Runs of the definitions on concrete inputs, and the theorems at inputs that meet their hypotheses.
mod Samples
mod Ranges
mod Crawl
mod Tracking
mod Rpc
mod Stages
mod Flow
mod Follow
mod Save
mod Versions
mod Walking
mod Graphql
mod Start
mod Rounds
mod Coins
mod Restarts
mod Loop
mod Newest
