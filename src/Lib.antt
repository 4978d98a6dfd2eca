-- ===== src/Lib.antt =====
-- PDS Core: the shared contracts and infrastructure of Paper Data Suite.
--
-- PDS Core owns what the modules of the suite share: identifiers, the routes printed on pages as PDS2
-- payloads and their registrations, school years, calendars of academic periods, rosters, the registry of
-- modules, the dispatch of a scanned page to the module that owns its route, and the publications of the
-- results of a module. This library models these parts.
--
-- Base         texts as lists of code points, lists, sorting, and `Outcome`: what a function that may
--              raise returns. `Decides` says which arguments a validator accepts.
-- Json         the values of json.load, and the exact test of a mapping's keys
--              (_require_exact_mapping, _exact_mapping).
-- Dict, Time   Python's dict with text keys; date and datetime. `IsoText` is the part of the standard
--              library that prints and reads ISO texts, with the law that what is printed is read back.
-- Identifiers  pds_core/identifiers.py.
-- SchoolYears  pds_core/school_years.py: validation, and in SchoolYears/Workspace the state file with
--              open_school_year and close_school_year. A write succeeds or fails by a flag.
-- Files        paths as lists of components, and the files of a workspace with their JSON values.
-- Routing      pds_core/routing_models.py: ModuleWorkRef, RouteLocator and ModuleRecordRef;
--              Routing/Freezing has the frozen details of a module, Routing/Registrations
--              RouteRegistration and RouteResolution.
-- Routes       pds_core/routes.py: the paths of classes, modules, works and registrations. Routes/Store is
--              pds_core/route_registrations.py: the write with a flag for each system call that may fail,
--              loading and resolution; Routes/Store/Dispatched runs the dispatch of Modules over it.
-- Publications pds_core/publication_records.py: publications and withdrawals, their dictionaries, and in
--              Publications/Series supersession and the chains that it forms.
-- Publications/Storage
--              pds_core/publication_storage.py: loading, listing and the current publication of a record
--              set; Storage/Write and Storage/Withdraw are the writes under the lock of a series, with a
--              flag for each system call that may fail. What a manifest resolves to, with its digest, and
--              what the storage of work registrations returns are parameters.
-- Publications/Compatibility
--              pds_core/publication_compatibility.py: the profile of a module that produces publications,
--              the registry of the profiles, and the evaluation of a publication against its profile.
--              What an installed entry point gives is an argument.
-- WorkRegistrations
--              pds_core/academic_work_registrations.py: the revisions that declare the academic intent of
--              a work, their dictionaries and transitions. Publications/Storage/Write reads them.
-- Rosters      pds_core/rosters.py: the validation of all rows of a roster, which collects its issues, and in
--              Rosters/Changes the changes of a roster in memory; Rosters/Creation creates one from mappings.
-- Pds2         pds_core/pds2.py: parser and serializer of page locators, over Routing.
-- Periods      pds_core/academic_periods.py: the record types and their validation; Periods/Hierarchy has
--              the tests on a list of periods, Periods/Calendars the revisions and their transitions,
--              Periods/Shapes the dictionaries.
-- Periods/Storage
--              pds_core/academic_period_storage.py for one school year: the files of the revisions, the
--              pointer current.json and the write lock. Storage/Write is the write with a flag for
--              each system call that may fail. Validation comes from Periods.
-- Periods/Queries
--              pds_core/academic_period_queries.py: lookups and ancestors, over a calendar that is validated;
--              Queries/Trees has the children, the descendants and the display order.
-- Modules      pds_core/module_profiles.py: profiles and the registry, and Modules/Dispatch for
--              pds_core/module_dispatch.py. The code of a module acts on a state, with the stored files
--              in it, which is a parameter, and so are what it returns and raises, the retained scan,
--              and what the stored route registrations resolve to in a state.
-- Examples     runs on concrete inputs.
--
-- Bounds. The walk of the cycle test has as fuel one more than the number of periods; a path holds
-- distinct periods, so it is enough, and so is the number of periods for the loop over ancestors and for
-- the one over the stack of the display order. The walk over a series of publications has one iteration
-- more than records. All other loops are recursions on a list.
--
-- A message is told by its error constructor. Types that Python tests at run time are types here, so the
-- isinstance tests of already typed values have no case. A date is any triple of numbers. A file holds
-- its JSON value: json.dumps and json.load are not modelled, and neither is the order of keys in a file.
-- Where json.load raises an exception that the code does not name, such as the ValueError for an integer
-- of more than 4300 digits, a registration or publication file is `undecodable`; dispatch_routes catches
-- five classes of exceptions, and this one ends a batch (`is_caught`). The files of calendars and of the
-- state of a school year have no such content here. What is no `Exception` in Python, such as a
-- KeyboardInterrupt, is not modelled.
-- A revision file is known by its number.
--
-- Not modelled: the list of configured school years, discovery of installed modules; the resolution of
-- manifests; the storage of academic work registrations, registry services and audit, grouping signals,
-- standards, roster files and classes, scan metadata; the SQLite catalog, command line, menus and scripts
-- (input and output).
pub mod Base
pub mod Json
pub mod Identifiers
pub mod Dict
pub mod Time
pub mod SchoolYears
pub mod Files
pub mod Routing
pub mod Routes
pub mod Publications
pub mod WorkRegistrations
pub mod Rosters
pub mod Pds2
pub mod Periods
pub mod Modules
pub mod Examples
