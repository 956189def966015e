-- ===== src/Tests/Announced.antt =====
-- Tests of the events of tasks, on a hub with two streams.
use atlas_c.Base.{some}
use atlas_c.Base.Assoc.{string_eq}
use atlas_c.Service.State.{Services}
use atlas_c.Tests.Creation.{ready}
use atlas_c.Tests.Lifecycle.{started}
use atlas_c.Tests.Events.{two_streams}

abbrev streaming : Services
streaming = record ready { publisher = some two_streams }

abbrev pending : Services
pending = record started { publisher = some two_streams }
