-- ===== src/Experiment.antt =====
-- src/experiment: the experiments that are run against each database.
pub mod Platform
pub mod ExperimentBase
pub mod Experiment1
pub mod Experiment2
pub mod Experiment3
pub mod Experiment4
pub mod Experiment5
pub mod Experiment6
pub mod Experiment7
