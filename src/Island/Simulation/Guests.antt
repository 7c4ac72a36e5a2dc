-- ===== src/Island/Simulation/Guests.antt =====
-- frontend/src/features/simulation/data/synthetic-guests.ts: the guests that are simulated.
use webmeow.Prelude.{true, false, List, [], ◌∷◌}
use webmeow.Island.Session.{GuestProfile, standard, fast, eu, non_eu}

abbrev pub synthetic_guests : List GuestProfile
synthetic_guests =
    record {
      id = "sim-guest-mango-0001";
      name = "Mango";
      surname = "Marin";
      age = 29;
      passport = eu;
      priority = standard;
      disability = false;
      avatar = "avatar-mango.png";
      personality = "Arrives with a camera and asks everyone for the best sunset spot.";
    }
    ∷ record {
      id = "sim-guest-coral-0002";
      name = "Coral";
      surname = "Vale";
      age = 34;
      passport = non_eu;
      priority = fast;
      disability = false;
      avatar = "avatar-coral.png";
      personality = "Plans every resort activity before unpacking.";
    }
    ∷ record {
      id = "sim-guest-palm-0003";
      name = "Palm";
      surname = "Ionescu";
      age = 41;
      passport = eu;
      priority = standard;
      disability = true;
      avatar = "avatar-palm.png";
      personality = "Looks for quiet corners and accessible routes around the island.";
    }
    ∷ record {
      id = "sim-guest-lagoon-0004";
      name = "Lagoon";
      surname = "Reef";
      age = 25;
      passport = non_eu;
      priority = standard;
      disability = false;
      avatar = "avatar-lagoon.png";
      personality = "Only came for water sports and fresh pineapple juice.";
    }
    ∷ record {
      id = "sim-guest-sunny-0005";
      name = "Sunny";
      surname = "Popescu";
      age = 52;
      passport = eu;
      priority = fast;
      disability = false;
      avatar = "avatar-sunny.png";
      personality = "Asks practical questions and always books early.";
    }
    ∷ record {
      id = "sim-guest-breeze-0006";
      name = "Breeze";
      surname = "Costa";
      age = 31;
      passport = non_eu;
      priority = standard;
      disability = false;
      avatar = "avatar-breeze.png";
      personality = "Changes plans often and follows whatever looks fun nearby.";
    }
    ∷ record {
      id = "sim-guest-coconut-0007";
      name = "Coconut";
      surname = "Dima";
      age = 38;
      passport = eu;
      priority = standard;
      disability = false;
      avatar = "avatar-coconut.png";
      personality = "Travels light, books late, and trusts the parrot too much.";
    }
    ∷ record {
      id = "sim-guest-pearl-0008";
      name = "Pearl";
      surname = "Nistor";
      age = 46;
      passport = eu;
      priority = standard;
      disability = false;
      avatar = "avatar-pearl.png";
      personality = "Wants a calm suite and one perfect beach activity.";
    }
    ∷ record {
      id = "sim-guest-tide-0009";
      name = "Tide";
      surname = "Lupu";
      age = 33;
      passport = non_eu;
      priority = standard;
      disability = false;
      avatar = "avatar-tide.png";
      personality = "Arrives late, leaves early, always has a good time.";
    }
    ∷ record {
      id = "sim-guest-dune-0010";
      name = "Dune";
      surname = "Florescu";
      age = 27;
      passport = eu;
      priority = fast;
      disability = false;
      avatar = "avatar-dune.png";
      personality = "First-timer who photographs everything and asks lots of questions.";
    }
    ∷ record {
      id = "sim-guest-wave-0011";
      name = "Wave";
      surname = "Barbu";
      age = 39;
      passport = eu;
      priority = standard;
      disability = true;
      avatar = "avatar-wave.png";
      personality = "Methodical planner who confirms every booking twice.";
    }
    ∷ record {
      id = "sim-guest-shell-0012";
      name = "Shell";
      surname = "Oprea";
      age = 44;
      passport = non_eu;
      priority = standard;
      disability = false;
      avatar = "avatar-shell.png";
      personality = "Collects beach memories and always tips the parrot.";
    }
    ∷ record {
      id = "sim-guest-reef-0013";
      name = "Reef";
      surname = "Stan";
      age = 22;
      passport = non_eu;
      priority = standard;
      disability = false;
      avatar = "avatar-reef.png";
      personality = "Impulsive traveller who switches activities on a whim.";
    }
    ∷ record {
      id = "sim-guest-cove-0014";
      name = "Cove";
      surname = "Gheorghe";
      age = 55;
      passport = eu;
      priority = fast;
      disability = false;
      avatar = "avatar-cove.png";
      personality = "Veteran resort guest who knows the best spots already.";
    }
    ∷ record {
      id = "sim-guest-gale-0015";
      name = "Gale";
      surname = "Matei";
      age = 30;
      passport = eu;
      priority = standard;
      disability = false;
      avatar = "avatar-gale.png";
      personality = "Spontaneous and always up for something new.";
    }
    ∷ record {
      id = "sim-guest-drift-0016";
      name = "Drift";
      surname = "Popa";
      age = 48;
      passport = non_eu;
      priority = standard;
      disability = false;
      avatar = "avatar-drift.png";
      personality = "Quiet observer who lets the island come to them.";
    }
    ∷ []
